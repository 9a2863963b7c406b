-- ===== src/Resource/Grants.antt =====
-- Who may read what, stated of a context without the order of the code's tests.
use facis_zero_trust_demonst.Base.{
  String, true, false, ◌≡◌, ◌≢◌, ◌⊎◌, ◌↔◌, inl, inr, some, none, Memᴰ, includes→mem, mem→includes,
  eq_iff, arith, Bool-cases, not, Option, ◌&&◌, ◌||◌, Bool,
}
use facis_zero_trust_demonst.Resource.{
  Context, Decision, success, is_false, opt_is, reads, audits, decide,
}

-- The security context can be relied on.
pub record IsUsable (c : Context) : Type 0 where
  pub available : c.dependency ≢ some false
  pub verified : c.verified ≢ some false
  pub current : c.expired ≡ false
  pub unrevoked : c.credential ≢ some "revoked"
  pub genuine : c.credential ≢ some "invalid"

abbrev pub MayRead : Context → Type 0
MayRead c = Memᴰ "resource-reader" c.roles × Memᴰ "read" c.scopes

abbrev pub MayAudit : Context → Type 0
MayAudit c = Memᴰ "resource-auditor" c.roles × Memᴰ "audit" c.scopes

abbrev pub MayReadDetail : Context → Type 0
MayReadDetail c = MayRead c × Memᴰ "resource-detail" c.roles × Memᴰ "read:detail" c.scopes

-- The code's tests as one Boolean.
abbrev is_usable : Context → Bool
is_usable c =
    not (is_false c.dependency)
    && not (is_false c.verified)
    && not c.expired
    && not (opt_is c.credential "revoked")
    && not (opt_is c.credential "invalid")

pub reads_iff : (c : Context) → (reads c ≡ true) ↔ MayRead c
reads_iff c = (
  λ h. (
    includes→mem c.roles "resource-reader" (ground arith),
    includes→mem c.scopes "read" (ground arith),
  ),
  λ m. rw (mem→includes m.0, mem→includes m.1),
)

pub audits_iff : (c : Context) → (audits c ≡ true) ↔ MayAudit c
audits_iff c = (
  λ h. (
    includes→mem c.roles "resource-auditor" (ground arith),
    includes→mem c.scopes "audit" (ground arith),
  ),
  λ m. rw (mem→includes m.0, mem→includes m.1),
)

opt_is_iff : (o : Option String) (s : String) → (opt_is o s ≡ true) ↔ (o ≡ some s)
opt_is_iff none s = ground arith
opt_is_iff (some t) s = ground (arith, eq_iff t s)

is_IsUsable_iff : (c : Context) → (is_usable c ≡ true) ↔ IsUsable c
is_IsUsable_iff c =
    ground (arith, opt_is_iff c.credential "revoked", opt_is_iff c.credential "invalid")

decide_tests :
    (base : Decision) (case_id : String) (c : Context)
    → ((decide base case_id c).outcome ≡ success) ↔ ((is_usable c && (reads c || audits c)) ≡ true)
unfolding decide
decide_tests base case_id c = ground arith

pub decide-success_iff :
    (base : Decision) (case_id : String) (c : Context)
    → ((decide base case_id c).outcome ≡ success) ↔ (IsUsable c × (MayRead c ⊎ MayAudit c))
decide-success_iff base case_id c =
    let tests = decide_tests base case_id c in
    let usable = is_IsUsable_iff c in
    (
      λ h. (usable.0 (ground (arith, tests.0 h)), granted (tests.0 h)),
      λ g. tests.1 (rw (usable.1 g.0) (allowed g.1)),
    )
  where
    granted : (is_usable c && (reads c || audits c)) ≡ true → MayRead c ⊎ MayAudit c
    granted h = elim (Bool-cases (reads c)) [
      | inl r ↦ inl ((reads_iff c).0 r)
      | inr n ↦ inr ((audits_iff c).0 (ground arith))
    ]

    allowed : MayRead c ⊎ MayAudit c → (reads c || audits c) ≡ true
    allowed (inl r) = rw ((reads_iff c).1 r)
    allowed (inr a) = ground (arith, (audits_iff c).1 a)
