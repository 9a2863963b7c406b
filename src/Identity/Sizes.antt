-- ===== src/Identity/Sizes.antt =====
-- How the records of the boundary grow and shrink (identity-on-start.js).
use facis_zero_trust_demonst.Base.{
  ℕ, suc, String, Bool, ◌≡◌, refl, ap, Option, none, some, [], ◌∷◌, ◌≤◌, ◌+◌, length, drop,
  length-drop, arith, Bool-cases, inl, inr, Dict, lookup, insert, delete, ltb, leb, ◌==◌, not,
}
use facis_zero_trust_demonst.Identity.State.{Session, Transaction, Auth}
use facis_zero_trust_demonst.Identity.Sessions.{
  retain, mark_expired, mark_all, is_stale, cleanup, delete_at, limit,
}

module _ {V : Type 0} where
  pub retain_le : (test : V → Bool) (m : Dict V) → length (retain test m) ≤ length m
  unfolding retain
  retain_le test [] = omega arith
  retain_le test ((k, v) ∷ m) =
      let ih = retain_le test m in
      elim (Bool-cases (test v)) [
        | inl kept ↦ rw kept (omega (arith, ih))
        | inr dropped ↦ rw dropped (omega (arith, ih))
      ]

  pub insert_le : (k : String) (v : V) (m : Dict V) → length (insert k v m) ≤ suc (length m)
  unfolding insert
  insert_le k v [] = omega arith
  insert_le k v ((j, w) ∷ m) =
      let ih = insert_le k v m in
      elim (Bool-cases (j == k)) [
        | inl same ↦ rw same (omega arith)
        | inr other ↦ rw other (omega (arith, ih))
      ]

  pub delete_le : (k : String) (m : Dict V) → length (delete k m) ≤ length m
  unfolding delete
  delete_le k [] = omega arith
  delete_le k ((j, w) ∷ m) =
      let ih = delete_le k m in
      elim (Bool-cases (j == k)) [
        | inl same ↦ rw same (omega (arith, ih))
        | inr other ↦ rw other (omega (arith, ih))
      ]

  pub delete_at_le : (at : Option String) (m : Dict V) → length (delete_at at m) ≤ length m
  delete_at_le none m = omega arith
  delete_at_le (some k) m = delete_le k m

  pub insert_known :
      (k : String) (v w : V) (m : Dict V) → lookup k m ≡ some v → length (insert k w m) ≡ length m
  unfolding insert lookup
  insert_known k v w [] e = cc
  insert_known k v w ((j, u) ∷ m) e = elim (Bool-cases (j == k)) [
    | inl same ↦ rw same refl
    | inr other ↦ rw other (ap suc (insert_known k v w m (ground (arith, other, e))))
  ]

pub mark_expired_le :
    (now : ℕ) (key : String) (ended : Dict ℕ)
    → length ended ≤ limit
    → length (mark_expired now key ended) ≤ limit
unfolding mark_expired
mark_expired_le now key ended le = elim (Bool-cases (leb limit (length ended))) [
  | inl full ↦
      let shorter = insert_le key (now + 300000) (drop 1 ended) in
      rw full (omega (arith, shorter, length-drop 1 ended, le))
  | inr room ↦
      let grown = insert_le key (now + 300000) ended in rw room (ground (arith, grown, room))
]

pub mark_all_le :
    (now : ℕ) (m : Dict Session) (ended : Dict ℕ)
    → length ended ≤ limit
    → length (mark_all now m ended) ≤ limit
unfolding mark_all
mark_all_le now [] ended le = le
mark_all_le now ((k, v) ∷ m) ended le = elim (Bool-cases (is_stale now v)) [
  | inl stale ↦ rw stale (mark_all_le now m _ (mark_expired_le now k ended le))
  | inr live ↦ rw live (mark_all_le now m ended le)
]

-- Every record has at most five hundred entries.
pub record IsBounded (s : Auth) : Type 0 where
  pub sessions : length s.sessions ≤ limit
  pub ended : length s.ended ≤ limit
  pub transactions : length s.transactions ≤ limit
  pub replays : length s.replays ≤ limit

pub cleanup-IsBounded : (now : ℕ) (s : Auth) → IsBounded s → IsBounded (cleanup now s)
unfolding cleanup
cleanup-IsBounded now s b = record {
  sessions =
      let le = retain_le (λ v. not (is_stale now v)) s.sessions in omega (arith, le, b.sessions);
  ended =
      mark_all_le now s.sessions _
        (let le = retain_le (ltb now) s.ended in omega (arith, le, b.ended));
  transactions =
      let le = retain_le (λ (v : Transaction). ltb now v.expires) s.transactions in
      omega (arith, le, b.transactions);
  replays = let le = retain_le (ltb now) s.replays in omega (arith, le, b.replays);
}
