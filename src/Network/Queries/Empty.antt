-- ===== src/Network/Queries/Empty.antt =====
-- GetProgram of a client with a negative number of retries.
use provable_sdk.Base.{ℕ, ◌≡◌, [], negsuc, Bytes, codes, ◌++◌}
use provable_sdk.Fault.{Fault}
use provable_sdk.Exec.{ok, err}
use provable_sdk.Http.Env.{Trace, Env}
use provable_sdk.Json.{Json}
use provable_sdk.Network.{NetworkClient, endpoint}
use provable_sdk.Network.Get.Negative.{fetch_negative}
use provable_sdk.Network.Queries.{or_raw, get_program}

-- If maxRetries is negative, and JSON refuses the empty text, GetProgram returns an empty source with
-- no error, and sends nothing.
pub get_program_negative :
    (env : Env) (json : Json) (c : NetworkClient) (program_id : Bytes) (t : Trace) {n : ℕ}
    {e : Fault}
    → c.max_retries ≡ negsuc n
    → json.string [] ≡ err e
    → get_program env json c program_id t ≡ (ok [], t)
unfolding get_program or_raw
get_program_negative env json c program_id t h k =
    rw (fetch_negative env c (endpoint c (codes "/program/" ++ program_id)) t h, k)
