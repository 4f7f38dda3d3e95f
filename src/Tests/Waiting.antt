-- ===== src/Tests/Waiting.antt =====
-- A transaction that the node does not know at the first poll, and knows at the second.
use provable_sdk.Base.{◌≡◌, refl, some, [], ◌∷◌, ◌++◌, arith, Bytes, codes}
use provable_sdk.Exec.{ok, err}
use provable_sdk.Fault.{Fault, annotate}
use provable_sdk.Http.Env.{Env, Trace, paused, pause}
use provable_sdk.Json.{Json}
use provable_sdk.Network.{endpoint}
use provable_sdk.Network.Get.{is_transient, status_fault}
use provable_sdk.Network.Get.Schedule.{schedule, actions, fetch_recovers, fetch_stops}
use provable_sdk.Network.Queries.{get_transaction}
use provable_sdk.Network.Wait.{wait_for_transaction, poll_interval}
use provable_sdk.Network.Wait.Runs.{
  Runs, found, again, wait_for_transaction_sound, wait_for_transaction_complete,
}
use provable_sdk.Tests.{
  at_first, calm_env, calm_env-IsCalm, node_client, reply, transfer, codec, refusal,
}

abbrev slow : Env
slow = calm_env (at_first (reply 404 []) (reply 200 []))

abbrev any_codec : Json
any_codec = codec (λ body. err refusal)

abbrev tx_url : Bytes
tx_url = endpoint node_client (codes "/transaction/at1")

abbrev after_poll_1 : Trace
after_poll_1 = schedule slow node_client tx_url 1 0

abbrev after_wait : Trace
after_wait = after_poll_1 ++ paused 7 ∷ []

abbrev after_poll_2 : Trace
after_poll_2 = after_wait ++ schedule slow node_client tx_url 1 0

unknown :
    (e : Fault) × (get_transaction slow any_codec node_client (codes "at1") []
      ≡ (err e, after_poll_1))
unfolding get_transaction is_transient
unknown = (
  annotate (codes "get transaction at1") (status_fault 404 []),
  rw
      (fetch_stops slow node_client tx_url (calm_env-IsCalm _ node_client tx_url) []
        (status_fault 404 []) 0 1 refl (omega arith) refl)
      refl,
)

known :
    get_transaction slow any_codec node_client (codes "at1") after_wait
    ≡ (ok transfer, after_poll_2)
unfolding get_transaction schedule actions
known =
    rw
      (fetch_recovers slow node_client tx_url (calm_env-IsCalm _ node_client tx_url) after_wait [] 0
        1 refl (omega arith) refl)
      refl

two_polls :
    Runs slow any_codec node_client (codes "at1") (poll_interval 7) [] (ok transfer) after_poll_2
unfolding poll_interval pause
two_polls = again (unknown.1) refl (found known)

wait_for_transaction_complete_example :
    wait_for_transaction slow any_codec node_client 2 (codes "at1") 7 []
    ≡ (some (ok transfer), after_poll_2)
unfolding two_polls
wait_for_transaction_complete_example =
    wait_for_transaction_complete slow any_codec node_client (codes "at1") 7 2 two_polls
      (omega arith)

wait_for_transaction_sound_example :
    Runs slow any_codec node_client (codes "at1") (poll_interval 7) [] (ok transfer) after_poll_2
unfolding two_polls
wait_for_transaction_sound_example =
    wait_for_transaction_sound slow any_codec node_client (codes "at1") 7 2 [] (
      wait_for_transaction_complete slow any_codec node_client (codes "at1") 7 2 two_polls
        (omega arith))
