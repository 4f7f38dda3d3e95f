-- ===== src/Fault.antt =====
-- errors.go, and the errors that `fmt.Errorf` builds: a value of Go's `error` other than nil.
use provable_sdk.Base.{Bool, true, false, [], ◌++◌, Bytes, codes}

-- The package's error variables.
pub data Sentinel : Type 0 where
  empty_transaction empty_transaction_id no_private_key no_account : Sentinel
  provable_client_not_configured proving_failed : Sentinel

-- `panic` is no error but a nil pointer that was followed, which ends the caller.
-- `foreign` is an error of a library, by its text; `plain` is `fmt.Errorf` with no `%w`, and
-- `wrap before e after` is `fmt.Errorf` with the verb `%w` between two texts.
pub data Fault : Type 0 where
  sentinel : Sentinel → Fault
  foreign plain : Bytes → Fault
  wrap : Bytes → Fault → Bytes → Fault
  panic : Fault

sentinel_text : Sentinel → Bytes
sentinel_text empty_transaction = codes "empty transaction in proving response"
sentinel_text empty_transaction_id = codes "transaction ID is empty in proving response"
sentinel_text no_private_key = codes "no private key configured"
sentinel_text no_account = codes "no account configured"
sentinel_text provable_client_not_configured = codes "provable client not configured"
sentinel_text proving_failed = codes "proving request failed"

-- err.Error()
unfoldable pub text : Fault → Bytes
unfolding sentinel_text
text (sentinel s) = sentinel_text s
text (foreign m) = m
text (plain m) = m
text panic = []
text (wrap before e after) = before ++ text e ++ after

same_sentinel : Sentinel → Sentinel → Bool
same_sentinel empty_transaction empty_transaction = true
same_sentinel empty_transaction_id empty_transaction_id = true
same_sentinel no_private_key no_private_key = true
same_sentinel no_account no_account = true
same_sentinel provable_client_not_configured provable_client_not_configured = true
same_sentinel proving_failed proving_failed = true
same_sentinel _ _ = false

-- errors.Is(err, target)
unfoldable pub is : Fault → Sentinel → Bool
unfolding same_sentinel
is (sentinel s) target = same_sentinel s target
is (foreign m) target = false
is (plain m) target = false
is panic target = false
is (wrap before e after) target = is e target

-- fmt.Errorf("…: %w", err), the colon and space written out
unfoldable pub annotate : Bytes → Fault → Fault
annotate context e = wrap (context ++ codes ": ") e []
