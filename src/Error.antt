-- ===== src/Error.antt =====
-- Go's `error` values as the program compares and prints them: the two sentinels of
-- pkg/engine/core.go, the errors of the database, and `errorString` (pkg/engine/util.go).
use pocket_flow_go.Prelude.{Option, String, Bool, some, none, true, false, ◌≡◌, ◌⊎◌, inl, inr, refl}

pub data Err : Type 0 where
  async_pending fatal no_rows constraint : Err
  text : String → Err

pub data Result {ℓ} (A : Type ℓ) : Type ℓ where
  ok : A → Result A
  err : Err → Result A

-- err.Error()
unfoldable pub message : Err → String
message async_pending = "async task pending"
message fatal = "fatal error"
message no_rows = "sql: no rows in result set"
message constraint = "UNIQUE constraint failed"
message (text s) = s

-- errString: empty for nil
unfoldable pub err_string : Option Err → String
unfolding message
err_string none = ""
err_string (some e) = message e

abbrev pub is_nil : Option Err → Bool
is_nil none = true
is_nil (some e) = false

abbrev pub is_pending : Option Err → Bool
is_pending (some async_pending) = true
is_pending _ = false

abbrev pub is_fatal : Option Err → Bool
is_fatal (some fatal) = true
is_fatal _ = false

pub Result-cases : {A : Type 0} (r : Result A) → ((a : A) × r ≡ ok a) ⊎ ((x : Err) × r ≡ err x)
Result-cases (ok a) = inl (a, refl)
Result-cases (err x) = inr (x, refl)
