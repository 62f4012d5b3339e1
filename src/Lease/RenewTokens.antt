-- ===== src/Lease/RenewTokens.antt =====
-- The tokens of a renewed lease of snulbug/leases.py: the previous one, and the present one that a
-- repeated renewal recovers.
use snulbug.Base.{
  ℕ, ◌+◌, ◌-◌, ◌*◌, ◌%◌, ◌≤◌, ◌<◌, ◌≡◌, refl, ap, ◌∙◌, String, Bool, true, false, ◌||◌, none, some,
  List, [], ◌∷◌, arith, ◌==◌, ltb, eq_iff, find, Bool-cases, Option-cases, Option, inl, inr,
}
use snulbug.Base.Result.{ok}
use snulbug.Lease.{Platform, Lease, Renewal, File, Reason, holds, second, is_after, parse_time}
use snulbug.Lease.View.{owns_token}
use snulbug.Lease.Store.{token_for_renewal}
use snulbug.Lease.Auth.{auth_denial, auth_bound, identity_denial}
use snulbug.Lease.Change.{update_first, in_invite}
use snulbug.Lease.Renew.{
  Presented, Renewed, denied, earlier, next_expiry, is_due, keep_previous, renewed, granted, grant,
  renewal_denial, bearer_denial, capability_denial, renew_found, renew_lease, load,
}

-- a time as it is stored, in whole seconds
abbrev pub whole : ℕ → ℕ
whole t = t - t % second

-- After the renewal of a lease that was running, its previous token opens it until the lease would
-- have ended, and for 30 seconds at most.
previous-overlap :
    (py : Platform) (now t expires : ℕ) (token : String) (lease : Lease) (renewal : Renewal)
    → parse_time py lease.expires_at ≡ some expires
    → now < expires
    → owns_token py t lease.token_hash (renewed py now token lease renewal) ≡ (
        (renewed py now token lease renewal).token_hash == lease.token_hash
        || ltb t (whole (earlier expires (now + 30 * second))))
unfolding owns_token renewed keep_previous is_after parse_time
previous-overlap py now t expires token lease renewal e h = ground (
  arith,
  e,
  py.parse-format (earlier expires (now + 30 * second)),
  eq_iff lease.token_hash lease.token_hash,
)

-- the renewal that a renewed lease has
abbrev pub next_renewal : Platform → ℕ → Lease → Renewal → Renewal
next_renewal py now lease renewal = record (keep_previous py now lease renewal) {
  generation = renewal.generation + 1;
  renewal_count = renewal.renewal_count + 1;
  last_renewed_at = some (py.format_time now);
}

-- what a renewal leaves of the renewal that a lease has
keep_previous-same :
    (py : Platform) (now : ℕ) (lease : Lease) (renewal : Renewal)
    → ((keep_previous py now lease renewal).authorization_expires_at
        ≡ renewal.authorization_expires_at)
      × ((keep_previous py now lease renewal).lease_ttl ≡ renewal.lease_ttl)
      × ((keep_previous py now lease renewal).token_hash ≡ renewal.token_hash)
      × ((keep_previous py now lease renewal).bearer_hash ≡ renewal.bearer_hash)
      × ((keep_previous py now lease renewal).revoked_at ≡ renewal.revoked_at)
unfolding keep_previous
keep_previous-same py now lease renewal = ground arith

not_due_again :
    (py : Platform) (now until : ℕ) (token : String) (lease : Lease) (renewal : Renewal)
    → parse_time py renewal.authorization_expires_at ≡ some until
    → until % second ≡ 0
    → 2 * second ≤ renewal.lease_ttl
    → is_due py now (renewed py now token lease renewal) (next_renewal py now lease renewal) ≡ false
unfolding is_due renewed next_expiry parse_time
not_due_again py now until token lease renewal e w long = ground (
  arith,
  e,
  py.parse-format (earlier until (now + renewal.lease_ttl)),
  keep_previous-same py now lease renewal,
)

-- the checks pass or fail for the renewed lease as they did before
renewal_denial-renewed :
    (py : Platform) (now : ℕ) (lease : Lease) (renewal : Renewal) (token : String) (p : Presented)
    → renewal_denial py now
        (renewed py now token lease renewal)
        (next_renewal py now lease renewal)
        p
      ≡ renewal_denial py now lease renewal p
unfolding renewal_denial bearer_denial capability_denial renewed auth_denial identity_denial
    auth_bound
renewal_denial-renewed py now lease renewal token p =
    let same = keep_previous-same py now lease renewal in rw (same.0, same.2, same.3, same.4) refl

find-update_first :
    (here : Lease → Bool) (l next : Lease) (ls : List Lease)
    → find here ls ≡ some l
    → here next ≡ here l
    → find here (update_first here (λ x. next) ls) ≡ some next
find-update_first here l next [] h same = absurd (cc h)
find-update_first here l next (x ∷ ls) h same = elim (Bool-cases (here x)) [
  | inl e ↦
      let is_l : some x ≡ some l = rw (e) at h in
      let there : here next ≡ true = ground (arith, is_l, same, e) in rw (e, there) refl
  | inr e ↦ rw (e, e) (find-update_first here l next ls (rw (e) at h) same)
]

-- what `renew_found` does, by what the checks give
abbrev when_checked :
    Platform
    → ℕ
    → String
    → List Lease
    → Presented
    → Lease
    → Renewal
    → Option Reason
    → Renewed × File
when_checked py now invite_id ls p lease renewal (some reason) = (denied reason, holds ls)
when_checked py now invite_id ls p lease renewal none =
    grant py now invite_id ls lease renewal p.renewal_token

renew_found-checked :
    (py : Platform) (now : ℕ) (invite_id : String) (ls : List Lease) (p : Presented) (lease : Lease)
    (renewal : Renewal)
    → renew_found py now invite_id ls p lease (some renewal)
      ≡ when_checked py now invite_id ls p lease renewal (renewal_denial py now lease renewal p)
unfolding renew_found
renew_found-checked py now invite_id ls p lease renewal =
    elim (Option-cases (renewal_denial py now lease renewal p)) [
      | inl clear ↦ ground (arith, clear)
      | inr (reason, refused) ↦ ground (arith, refused)
    ]

checked_clear :
    (py : Platform) (now : ℕ) (invite_id : String) (ls : List Lease) (p : Presented)
    (lease next : Lease) (renewal : Renewal) (present : String) (file : File)
    (reason : Option Reason)
    → when_checked py now invite_id ls p lease renewal reason ≡ (granted true next present, file)
    → (reason ≡ none)
      × (grant py now invite_id ls lease renewal p.renewal_token
          ≡ (granted true next present, file))
checked_clear py now invite_id ls p lease next renewal present file (some reason) h = absurd (cc h)
checked_clear py now invite_id ls p lease next renewal present file none h = (refl, h)

-- a granted change is of the lease of the invite, and is stored in its place
grant_change :
    (py : Platform) (now : ℕ) (invite_id : String) (ls : List Lease) (lease next : Lease)
    (renewal : Renewal) (token present : String) (file : File)
    → grant py now invite_id ls lease renewal token ≡ (granted true next present, file)
    → (next ≡ renewed py now token lease renewal)
      × (present ≡ token_for_renewal py token lease.id (renewal.generation + 1))
      × (file
          ≡ holds (update_first (in_invite invite_id) (λ l. renewed py now token lease renewal) ls))
unfolding grant
grant_change py now invite_id ls lease next renewal token present file h =
    elim (Bool-cases (is_due py now lease renewal)) [
      | inl due ↦ let e = rw (due) at h in (cc e, cc e, cc e)
      | inr quiet ↦ let e = rw (quiet) at h in absurd (cc e)
    ]

grant_same :
    (py : Platform) (now : ℕ) (invite_id : String) (ls : List Lease) (lease : Lease)
    (renewal : Renewal) (token : String)
    → is_due py now lease renewal ≡ false
    → grant py now invite_id ls lease renewal token
      ≡ (granted false lease (token_for_renewal py token lease.id renewal.generation), holds ls)
unfolding grant
grant_same py now invite_id ls lease renewal token quiet = rw (quiet) refl

renew_lease-found :
    (py : Platform) (now : ℕ) (invite_id : String) (p : Presented) (ls : List Lease) (lease : Lease)
    → find (in_invite invite_id) ls ≡ some lease
    → renew_lease py now invite_id p (holds ls)
      ≡ ok (renew_found py now invite_id ls p lease lease.renewal)
unfolding renew_lease load
renew_lease-found py now invite_id p ls lease found = ground (arith, found)

-- When `renew_lease` opens a new window of the lease of an invite, the same call at once on the file
-- that it wrote succeeds, changes nothing more and recovers the same lease and the same token, if
-- the authorization ends at a whole second and the lease time is 2 seconds or more.
pub renew_twice :
    (py : Platform) (now until : ℕ) (invite_id : String) (p : Presented) (ls : List Lease)
    (lease next : Lease) (renewal : Renewal) (present : String) (file : File)
    → find (in_invite invite_id) ls ≡ some lease
    → lease.renewal ≡ some renewal
    → parse_time py renewal.authorization_expires_at ≡ some until
    → until % second ≡ 0
    → 2 * second ≤ renewal.lease_ttl
    → renew_lease py now invite_id p (holds ls) ≡ ok (granted true next present, file)
    → renew_lease py now invite_id p file ≡ ok (granted false next present, file)
unfolding renewed
renew_twice py now until invite_id p ls lease next renewal present file found has e whole_ long h =
    let before = renew_lease-found py now invite_id p ls lease found in
    let first : when_checked py now invite_id ls p lease renewal
          (renewal_denial py now lease renewal p)
        ≡ (granted true next present, file) =
      cc (before, has, h, renew_found-checked py now invite_id ls p lease renewal) in
    let (clear, made) =
      checked_clear py now invite_id ls p lease next renewal present file _ first in
    let change =
      grant_change py now invite_id ls lease next renewal p.renewal_token present file made in
    let again = renewed py now p.renewal_token lease renewal in
    let ls' = update_first (in_invite invite_id) (λ l. again) ls in
    let renewal' = next_renewal py now lease renewal in
    let there = find-update_first (in_invite invite_id) lease again ls found refl in
    let clear' = renewal_denial-renewed py now lease renewal p.renewal_token p ∙ clear in
    let quiet = not_due_again py now until p.renewal_token lease renewal e whole_ long in
    rw (change.0, change.1, change.2)
      (renew_lease-found py now invite_id p ls' again there
        ∙ ap ok (
            renew_found-checked py now invite_id ls' p again renewal'
            ∙ ap (when_checked py now invite_id ls' p again renewal') clear'
            ∙ grant_same py now invite_id ls' again renewal' p.renewal_token quiet))
