-- ===== src/Lifecycle/Jobs.antt =====
-- The jobs kept in the flow context (ztd-lifecycle.js, `store`), in the order in which JavaScript
-- lists keys: array indices first, in ascending order, then the others in the order of their first
-- entry. A name that every object inherits is found without an entry. Setting `__proto__` makes no
-- entry; that the jobs then inherit the name `result` is left out.
use facis_zero_trust_demonst.Base.{
  ℕ, String, Bool, true, false, ◌≡◌, refl, ◌∙◌, ◌≤◌, ◌-◌, ◌+◌, ◌*◌, suc, zero, Option, none, some,
  List, [], ◌∷◌, arith, Bool-cases, inl, inr, ◌⊎◌, length, drop, Dict, lookup, Value, eq_refl, ◌==◌,
  includes, if◌then◌else◌, ltb, is_digit, is_empty, ◌&&◌, not, every_char, eq_iff, nat_eq,
}
use Prim.Native.Char.{code}
use facis_zero_trust_demonst.Lifecycle.Results.{Result}

-- A job; one that was made from an inherited value has no events.
pub record Job : Type 0 where
  pub events : Option (List Value)
  pub result : Option Result

abbrev pub Jobs : Type 0
Jobs = Dict Job

abbrev pub kept_jobs : ℕ
kept_jobs = 50

abbrev pub new_job : Job
new_job = record { events = some []; result = none }

-- The names of `Object.prototype`; what they name is truthy and has no properties of its own that a
-- spread copies.
abbrev pub inherited_names : List String
inherited_names =
    "constructor" ∷ "__proto__" ∷ "toString" ∷ "valueOf" ∷ "toLocaleString" ∷ "hasOwnProperty"
    ∷ "isPrototypeOf" ∷ "propertyIsEnumerable" ∷ "__defineGetter__" ∷ "__defineSetter__"
    ∷ "__lookupGetter__" ∷ "__lookupSetter__" ∷ []

unfoldable pub job_of : String → Jobs → Job
job_of id jobs = elim (lookup id jobs) [
  | some job ↦ job
  | none ↦ if includes inherited_names id then record { events = none; result = none } else new_job
]

-- The number that a text of digits denotes, after the digits before it.
unfoldable pub number_from : ℕ → String → ℕ
number_from n String.[] = n
number_from n (String.◌∷◌ c s) = number_from (n * 10 + (code c - 48)) s

abbrev leading_zero : String → Bool
leading_zero String.[] = false
leading_zero (String.◌∷◌ c s) = nat_eq (code c) 48 && not (is_empty s)

-- The array index that a key is: digits without a leading zero, below 2 ^ 32 - 1.
unfoldable pub index_of : String → Option ℕ
index_of key =
    if not (is_empty key)
      && every_char is_digit key
      && not (leading_zero key)
      && ltb (number_from 0 key) 4294967295
    then some (number_from 0 key)
    else none

-- A new key is listed before this one.
abbrev comes_before : String → String → Bool
comes_before id key = elim (index_of id) [
  | none ↦ false
  | some n ↦ elim (index_of key) [ none ↦ true | some m ↦ ltb n m ]
]

-- `jobs[id] = job`
unfoldable pub place : String → Job → Jobs → Jobs
place id job [] = (id, job) ∷ []
place id job ((key, old) ∷ jobs) =
    let rest = place id job jobs in
    if key == id
    then (key, job) ∷ jobs
    else if comes_before id key
    then (id, job) ∷ (key, old) ∷ jobs
    else (key, old) ∷ rest

-- The first keys beyond the kept ones are deleted.
unfoldable pub store : String → (Job → Job) → Jobs → Jobs
store id update jobs =
    let stored = if id == "__proto__" then jobs else place id (update (job_of id jobs)) jobs in
    drop (length stored - kept_jobs) stored

length-drop : (n : ℕ) (jobs : Jobs) → length (drop n jobs) ≡ length jobs - n
length-drop zero jobs = omega arith
length-drop (suc n) [] = omega arith
length-drop (suc n) (j ∷ jobs) = length-drop n jobs ∙ omega arith

pub store_bound :
    (id : String) (update : Job → Job) (jobs : Jobs) → length (store id update jobs) ≤ 50
unfolding store
store_bound id update jobs =
    let stored = if id == "__proto__" then jobs else place id (update (job_of id jobs)) jobs in
    omega (arith, length-drop (length stored - 50) stored)

length-place-le :
    (id : String) (job : Job) (jobs : Jobs) → length (place id job jobs) ≤ suc (length jobs)
unfolding place
length-place-le id job [] = omega arith
length-place-le id job ((key, old) ∷ jobs) =
    let ih = length-place-le id job jobs in
    elim (Bool-cases (key == id)) [
      | inl same ↦ rw same (omega arith)
      | inr other ↦ elim (Bool-cases (comes_before id key)) [
        | inl before ↦ rw (other, before) (omega arith)
        | inr after ↦ rw (other, after) (omega (arith, ih))
      ]
    ]

over_or_not : (n : ℕ) → (n - 50 ≡ 0) ⊎ (51 ≤ n)
over_or_not n = omega arith

lookup_placed : (id : String) (job : Job) (jobs : Jobs) → lookup id (place id job jobs) ≡ some job
unfolding lookup place
lookup_placed id job [] = ground (arith, eq_refl id)
lookup_placed id job ((key, old) ∷ jobs) =
    let ih = lookup_placed id job jobs in
    elim (Bool-cases (key == id)) [
      | inl same ↦ rw same (rw same refl)
      | inr other ↦ elim (Bool-cases (comes_before id key)) [
        | inl before ↦ rw (other, before) (rw (eq_refl id) refl)
        | inr after ↦ rw (other, after) (rw other ih)
      ]
    ]

comes_last : (id key : String) → index_of id ≡ none → comes_before id key ≡ false
comes_last id key last = rw (last, comes_before) refl

-- A new entry that is no array index goes to the end.
lookup_kept :
    (id : String) (job : Job) (jobs : Jobs)
    → index_of id ≡ none
    → length jobs ≤ 50
    → lookup id (drop (length (place id job jobs) - 50) (place id job jobs)) ≡ some job
unfolding place lookup
lookup_kept id job [] last h = ground (arith, eq_refl id)
lookup_kept id job ((key, old) ∷ jobs) last h = elim (Bool-cases (key == id)) [
  | inl same ↦
      let none_gone : suc (length jobs) - 50 ≡ 0 = omega arith in
      rw (same, none_gone) (rw same refl)
  | inr other ↦
      let rest = place id job jobs in
      let longer = length-place-le id job jobs in
      let found = lookup_placed id job jobs in
      rw (other, comes_last id key last)
        (elim (over_or_not (suc (length rest))) [
          | inl few ↦ rw few (rw other found)
          | inr many ↦
              let one_gone : suc (length rest) - 50 ≡ 1 = omega (arith, many) in rw one_gone found
        ])
]

-- What keeps a new entry from being deleted at once: its key goes to the end, or there is room.
abbrev pub HasRoom : String → Jobs → Type 0
HasRoom id jobs = (index_of id ≡ none) ⊎ (length jobs ≤ 49)

placed_kept :
    (id : String) (job : Job) (jobs : Jobs)
    → HasRoom id jobs
    → length jobs ≤ 50
    → lookup id (drop (length (place id job jobs) - 50) (place id job jobs)) ≡ some job
placed_kept id job jobs (inl last) h = lookup_kept id job jobs last h
placed_kept id job jobs (inr room) h =
    let longer = length-place-le id job jobs in
    let none_gone : length (place id job jobs) - 50 ≡ 0 = omega (arith, room, longer) in
    rw none_gone (lookup_placed id job jobs)

own_name : (id : String) → includes inherited_names id ≡ false → (id == "__proto__") ≡ false
own_name id own = ground (arith, eq_iff id "__proto__", eq_iff "__proto__" id)

-- What was just stored is found, where it had room.
pub lookup-store :
    (id : String) (update : Job → Job) (jobs : Jobs)
    → includes inherited_names id ≡ false
    → HasRoom id jobs
    → length jobs ≤ 50
    → lookup id (store id update jobs) ≡ some (update (job_of id jobs))
unfolding store
lookup-store id update jobs own room h =
    rw (own_name id own) (placed_kept id (update (job_of id jobs)) jobs room h)
