-- ===== src/Lease/Sample.antt =====
-- A platform and a lease for runs of snulbug/leases.py.
use Prim.Native.String
use snulbug.Base.{
  eq_iff, ap, Bool-cases, inl, inr, ℕ, zero, suc, ◌-◌, ◌*◌, ◌/◌, ◌%◌, ◌≡◌, refl, String, Option,
  none, some, [], ◌∷◌, arith, ◌==◌, truthy,
}
use snulbug.Lease.{Platform, Lease, second}
use snulbug.Lease.Store.{LeaseRequest, Drawn, Created}

-- A time as a text of one letter and a stroke for each second.
abbrev pub tally : ℕ → String
tally zero = String.[]
tally (suc n) = String.◌∷◌ "1" (tally n)

abbrev pub size : String → ℕ
size String.[] = zero
size (String.◌∷◌ c s) = suc (size s)

size-tally : (n : ℕ) → size (tally n) ≡ n
size-tally zero = refl
size-tally (suc n) = omega (arith, size-tally n)

abbrev pub stamp : ℕ → String
stamp t = String.◌∷◌ "t" (tally (t / second))

abbrev pub unstamp : String → Option ℕ
unstamp String.[] = none
unstamp (String.◌∷◌ c s) = some (size s * second)

pub unstamp-stamp : (t : ℕ) → unstamp (stamp t) ≡ some (t - t % second)
unstamp-stamp t = rw (size-tally (t / second)) (ground arith)

pub stamp-truthy : (t : ℕ) → truthy (some (stamp t)) ≡ some (stamp t)
stamp-truthy t = elim (Bool-cases (stamp t == "")) [
  | inl e ↦
      let same : stamp t ≡ "" = (eq_iff (stamp t) "").0 e in
      let short : suc (size (tally (t / second))) ≡ 0 = ap size same in absurd (omega arith)
  | inr e ↦ rw e refl
]

abbrev pub platform : Platform
platform = record {
  format_time = stamp;
  parse_time = unstamp;
  parse-format = unstamp-stamp;
  format_time-truthy = stamp-truthy;
  sha256 = λ s. s;
  hmac_sha256 = λ key s. String.◌++◌ key s;
  str_of_ℕ = tally;
  lower = λ s. s;
  strip = λ s. s;
  replace = λ s old new. s;
  rstrip = λ s chars. s;
  normpath = λ s. s;
  url_host = λ s. none;
  command_name = λ s. s;
}

abbrev pub request : LeaseRequest
request = record {
  task = "fix";
  allow_tools = "read" ∷ [];
  capabilities = [];
  allow_paths = [];
  allow_hosts = [];
  allow_commands = [];
  allow_subjects = [];
  allow_issuers = [];
  allow_tenants = [];
  allow_client_ids = [];
  allow_groups = [];
  allow_auth_profiles = [];
  ttl = 5 * second;
  max_calls = some 2;
  token = none;
  invite = none;
  renewal_ttl = none;
  renewal_token = none;
  renewal_bearer = none;
}

abbrev pub drawn : Drawn
drawn = record { lease_id = "l1"; token = "k1"; renewal_token = "r1" }

abbrev pub lease : Lease
lease = record {
  id = "l1";
  task = "fix";
  created_at = "t1";
  expires_at = some "t111111";
  revoked_at = none;
  reactivated_at = none;
  token_hash = "sha256:k1";
  capabilities = [];
  allow_tools = "read" ∷ [];
  allow_paths = [];
  allow_hosts = [];
  allow_commands = [];
  allow_subjects = [];
  allow_issuers = [];
  allow_tenants = [];
  allow_client_ids = [];
  allow_groups = [];
  allow_auth_profiles = [];
  max_calls = some 2;
  use_count = 0;
  last_used_at = none;
  last_tool = none;
  invite = none;
  renewal = none;
}

abbrev pub created : Created
created = record { lease = lease; token = "k1"; renewal_token = none }
