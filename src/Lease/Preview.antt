-- ===== src/Lease/Preview.antt =====
-- The preview of a lease decision in snulbug/leases.py against its enforcement.
use snulbug.Base.{
  ℕ, ◌≡◌, refl, Bool, true, false, Option, none, some, List, arith, Bool-cases, inl, inr,
}
use snulbug.Base.Json.{Fields}
use snulbug.Lease.{Platform, Lease, AuthContext, File}
use snulbug.Lease.Enforce.{
  Scope, LeasePolicyConfig, Resolved, skipped, refused, found, Decision, decide, conclude, evaluate,
  enforce, preview,
}

conclude-preview :
    (py : Platform) (now : ℕ) (request : Fields) (file : File) (here : Lease → Bool)
    (ls : List Lease) (d : Decision)
    → conclude py now false request file here ls d
      ≡ ((conclude py now true request file here ls d).0, file)
unfolding conclude
conclude-preview py now request file here ls (some reason) = refl
conclude-preview py now request file here ls none = ground arith

decide-preview :
    (py : Platform) (now : ℕ) (required : Bool) (request : Fields) (auth : Option AuthContext)
    (file : File) (r : Resolved)
    → decide py now false required request auth file r
      ≡ ((decide py now true required request auth file r).0, file)
unfolding decide
decide-preview py now required request auth file skipped = refl
decide-preview py now required request auth file (refused reason) = refl
decide-preview py now required request auth file (found l here ls) =
    conclude-preview py now request file here ls _

-- A preview decides as the enforcement does, and leaves the file as it is.
pub preview-enforce :
    (py : Platform) (now : ℕ) (config : LeasePolicyConfig) (request : Fields) (scope : Scope)
    (file : File)
    → preview py now config request scope file
      ≡ ((enforce py now config request scope file).0, file)
unfolding preview enforce evaluate
preview-enforce py now config request scope file = elim (Bool-cases config.has_file) [
  | inl has ↦ simp has (decide-preview py now config.required request scope.auth file _)
  | inr none_set ↦ simp none_set
]
