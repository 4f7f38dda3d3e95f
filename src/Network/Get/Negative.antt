-- ===== src/Network/Get/Negative.antt =====
-- NetworkClient.get with a negative number of retries: the loop makes no round.
use provable_sdk.Base.{ℕ, ◌≡◌, ap, none, [], negsuc, rounds, Bytes}
use provable_sdk.Exec.{ok}
use provable_sdk.Http.Env.{Trace, Env}
use provable_sdk.Network.{NetworkClient}
use provable_sdk.Network.Get.{finish, loop, fetch}

module _ (env : Env) (c : NetworkClient) (url : Bytes) where
  pub fetch_negative :
      (t : Trace) {n : ℕ} → c.max_retries ≡ negsuc n → fetch env c url t ≡ (ok [], t)
  unfolding fetch loop finish
  fetch_negative t e = ap (λ r. loop env c url (rounds r) 0 none t) e
