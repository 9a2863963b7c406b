-- ===== src/Lifecycle/Validation.antt =====
-- Which lifecycle commands `validate` accepts (ztd-lifecycle.js).
use facis_zero_trust_demonst.Base.{
  String, Bool, true, false, ◌≡◌, refl, sym, ◌∙◌, ap, ◌↔◌, ◌&&◌, ◌||◌, not, some, List, [], ◌∷◌,
  arith, Bool-cases, inl, inr, Dict, insert, includes, ◌==◌, Value, Fields, keys, get, as_object,
  is_text, str, is_empty, all, ◌⊎◌, ◌≢◌, ◌≤◌, All, Memᴰ, obj, text_length, subst, is_text_iff,
  eq_iff, includes→mem, mem→includes,
}
use facis_zero_trust_demonst.Lifecycle.Labels.{IsLabel, is_label_iff}
use facis_zero_trust_demonst.Lifecycle.Command.{
  members, note, is_some_text, usable_id, known_action, parameters, unknown_parameters, is_object,
  deploy_errors, payload_errors, command_errors, validate, dns_label, release_label,
}

-- What the node runs: a command to deploy or to uninstall, with an identifier of 1 to 128 characters,
-- whose payload has no unknown parameter, a release and a namespace that are labels of at most 53 and
-- 63 characters, and, for a deploy, a chart and values. (A parameter that is named `__proto__` goes
-- unnoticed.)
pub record IsAcceptable (command payload : Fields) : Type 0 where
  pub type : get "type" command ≡ str "command"
  pub action : (get "action" command ≡ str "deploy") ⊎ (get "action" command ≡ str "uninstall")
  pub request_id :
      (s : String) × (get "requestId" command ≡ str s) × (1 ≤ text_length s) × (text_length s ≤ 128)
  pub known :
      All
        (λ k. Memᴰ k ("release" ∷ "namespace" ∷ "chart" ∷ "values" ∷ "__proto__" ∷ []))
        (keys payload)
  pub release : (s : String) × (get "release" payload ≡ str s) × IsLabel 53 s
  pub namespace : (s : String) × (get "namespace" payload ≡ str s) × IsLabel 63 s
  pub chart :
      get "action" command ≡ str "deploy" → (s : String) × (get "chart" payload ≡ str s) × (s ≢ "")
  pub values : get "action" command ≡ str "deploy" → (fs : Fields) × (get "values" payload ≡ obj fs)

-- The same as the nine tests of the code.
record IsTested (command payload : Fields) : Type 0 where
  type : is_text (get "type" command) "command" ≡ true
  action : known_action (get "action" command) ≡ true
  request_id : is_some_text usable_id (get "requestId" command) ≡ true
  known : all (λ k. includes parameters k || k == "__proto__") (keys payload) ≡ true
  release : is_some_text release_label (get "release" payload) ≡ true
  namespace : is_some_text dns_label (get "namespace" payload) ≡ true
  chart :
      is_text (get "action" command) "deploy" ≡ true
      → is_some_text (λ s. not (is_empty s)) (get "chart" payload) ≡ true
  values : is_text (get "action" command) "deploy" ≡ true → is_object (get "values" payload) ≡ true

abbrev pub is_clean : Dict Value → Bool
is_clean [] = true
is_clean (_ ∷ _) = false

clean_empty : (m : Dict Value) → is_clean m ≡ true → m ≡ []
clean_empty [] e = refl
clean_empty (_ ∷ _) e = cc

insert-is_clean : (k : String) (v : Value) (m : Dict Value) → is_clean (insert k v m) ≡ false
unfolding insert
insert-is_clean k v [] = refl
insert-is_clean k v ((j, w) ∷ m) = ground arith

note-is_clean :
    (bad : Bool) (key message : String) (m : Dict Value)
    → is_clean (note bad key message m) ≡ (is_clean m && (not bad || key == "__proto__"))
unfolding note
note-is_clean bad key message m = ground (arith, insert-is_clean key (str message) m)

unknown-is_clean :
    (ks : List String) (m : Dict Value)
    → is_clean (unknown_parameters ks m)
      ≡ (is_clean m && all (λ k. includes parameters k || k == "__proto__") ks)
unfolding unknown_parameters
unknown-is_clean [] m = ground arith
unknown-is_clean (k ∷ ks) m =
    let message : String = "is not a known parameter" in
    let bad = not (includes parameters k) in
    ground (arith, unknown-is_clean ks (note bad k message m), note-is_clean bad k message m)

command_errors-is_clean :
    (command : Fields)
    → is_clean (command_errors command) ≡ (
        is_text (get "type" command) "command"
        && known_action (get "action" command)
        && is_some_text usable_id (get "requestId" command))
unfolding command_errors
command_errors-is_clean command = rw (note-is_clean, note-is_clean, note-is_clean) (ground arith)

payload_errors-is_clean :
    (action : Value) (payload : Fields) (m : Dict Value)
    → is_clean (payload_errors action payload m) ≡ (
        is_clean m
        && all (λ k. includes parameters k || k == "__proto__") (keys payload)
        && is_some_text release_label (get "release" payload)
        && is_some_text dns_label (get "namespace" payload)
        && (not (is_text action "deploy")
            || (is_some_text (λ s. not (is_empty s)) (get "chart" payload)
                && is_object (get "values" payload))))
unfolding payload_errors deploy_errors
payload_errors-is_clean action payload m = elim (Bool-cases (is_text action "deploy")) [
  | inl deploy ↦
      rw (deploy, note-is_clean, note-is_clean, note-is_clean, note-is_clean, unknown-is_clean)
        (ground arith)
  | inr other ↦ rw (other, note-is_clean, note-is_clean, unknown-is_clean) (ground arith)
]

-- The nine tests, joined and apart.
module _ (type action id known release namespace deploy chart values : Bool) where
  abbrev joined : Bool
  joined =
      (type && action && id) && known && release && namespace && (not deploy || (chart && values))

  abbrev Apart : Type 0
  Apart =
      (type ≡ true)
      × (action ≡ true)
      × (id ≡ true)
      × (known ≡ true)
      × (release ≡ true)
      × (namespace ≡ true)
      × (deploy ≡ true → chart ≡ true)
      × (deploy ≡ true → values ≡ true)

  joined-Apart : joined ≡ true → Apart
  joined-Apart h = ground arith

  Apart-joined : Apart → joined ≡ true
  Apart-joined h = ground arith

validate-IsTested_iff :
    (c : Value) (command payload : Fields)
    → members c ≡ some command
    → as_object (get "payload" command) ≡ some payload
    → (validate c ≡ []) ↔ IsTested command payload
unfolding validate
validate-IsTested_iff c command payload e f =
    let tested = payload_errors (get "action" command) payload (command_errors command) in
    let same : validate c ≡ tested = ground arith in
    let tests =
      rw (command_errors-is_clean command) at
        (payload_errors-is_clean (get "action" command) payload (command_errors command)) in
    (
      λ clean.
          let a = joined-Apart _ _ _ _ _ _ _ _ _ (sym tests ∙ ap is_clean (sym same ∙ clean)) in
          record {
            type = a.0;
            action = a.1;
            request_id = a.2;
            known = a.3;
            release = a.4;
            namespace = a.5;
            chart = a.6;
            values = a.7;
          },
      λ (h : IsTested command payload).
          same
          ∙ clean_empty tested (
              tests
              ∙ Apart-joined _ _ _ _ _ _ _ _ _ (
                h.type, h.action, h.request_id, h.known, h.release, h.namespace, h.chart, h.values,
              )),
    )

is_some_text_iff :
    (p : String → Bool) (v : Value)
    → (is_some_text p v ≡ true) ↔ ((s : String) × (v ≡ str s) × (p s ≡ true))
is_some_text_iff p (str s) =
    (λ h. (s, refl, h), λ e. subst (λ v. is_some_text p v ≡ true) (sym e.1) e.2)
is_some_text_iff p _ = (λ h. cc, λ e. cc (e.1))

is_object_iff : (v : Value) → (is_object v ≡ true) ↔ ((fs : Fields) × (v ≡ obj fs))
is_object_iff (obj fs) = (λ h. (fs, refl), λ e. refl)
is_object_iff _ = (λ h. cc, λ e. cc (e.1))

known_action_iff :
    (v : Value) → (known_action v ≡ true) ↔ ((v ≡ str "deploy") ⊎ (v ≡ str "uninstall"))
known_action_iff v = (
  λ h. elim (Bool-cases (is_text v "deploy")) [
    | inl deploy ↦ inl ((is_text_iff v "deploy").0 deploy)
    | inr other ↦ inr ((is_text_iff v "uninstall").0 (ground (arith, h, other)))
  ],
  λ e. ground (arith, (is_text_iff v "deploy").1, (is_text_iff v "uninstall").1, e),
)

abbrev allowed : List String
allowed = "release" ∷ "namespace" ∷ "chart" ∷ "values" ∷ "__proto__" ∷ []

is_allowed : (k : String) → (includes parameters k || k == "__proto__") ≡ includes allowed k
is_allowed k = ground (arith, eq_iff k "__proto__", eq_iff "__proto__" k)

known_iff :
    (ks : List String)
    → (all (λ k. includes parameters k || k == "__proto__") ks ≡ true)
      ↔ All (λ k. Memᴰ k allowed) ks
known_iff [] = (λ _. tt, λ _. refl)
known_iff (k ∷ ks) = (
  λ h. (includes→mem allowed k (ground (arith, is_allowed k)), (known_iff ks).0 (ground arith)),
  λ a. ground (arith, is_allowed k, mem→includes a.0, (known_iff ks).1 a.1),
)

not_empty_iff : (s : String) → (not (is_empty s) ≡ true) ↔ (s ≢ "")
not_empty_iff String.[] = (λ h. cc, λ e. absurd (e refl))
not_empty_iff (String.◌∷◌ c s) = (λ h e. let same = ap is_empty e in cc, λ e. refl)

tested-IsAcceptable :
    (command payload : Fields) → IsTested command payload → IsAcceptable command payload
unfolding release_label dns_label
tested-IsAcceptable command payload t =
    let (id, identified, usable) =
      (is_some_text_iff usable_id (get "requestId" command)).0 t.request_id in
    let (r, released, r_label) =
      (is_some_text_iff release_label (get "release" payload)).0 t.release in
    let (n, named, n_label) =
      (is_some_text_iff dns_label (get "namespace" payload)).0 t.namespace in
    let deploys = is_text_iff (get "action" command) "deploy" in
    record {
      type = (is_text_iff (get "type" command) "command").0 t.type;
      action = (known_action_iff (get "action" command)).0 t.action;
      request_id = (id, identified, ground (arith, usable), ground (arith, usable));
      known = (known_iff (keys payload)).0 t.known;
      release = (r, released, (is_label_iff 51 r).0 r_label);
      namespace = (n, named, (is_label_iff 61 n).0 n_label);
      chart = λ deploy.
          let (s, charted, filled) =
            (is_some_text_iff _ (get "chart" payload)).0 (t.chart (deploys.1 deploy)) in
          (s, charted, (not_empty_iff s).0 filled);
      values = λ deploy. (is_object_iff (get "values" payload)).0 (t.values (deploys.1 deploy));
    }

acceptable-IsTested :
    (command payload : Fields) → IsAcceptable command payload → IsTested command payload
unfolding release_label dns_label
acceptable-IsTested command payload a =
    let (id, identified, least, most) = a.request_id in
    let (r, released, r_label) = a.release in
    let (n, named, n_label) = a.namespace in
    let deploys = is_text_iff (get "action" command) "deploy" in
    let usable : usable_id id ≡ true = ground (arith, least, most) in
    record {
      type = (is_text_iff (get "type" command) "command").1 a.type;
      action = (known_action_iff (get "action" command)).1 a.action;
      request_id =
          (is_some_text_iff usable_id (get "requestId" command)).1 (id, identified, usable);
      known = (known_iff (keys payload)).1 a.known;
      release =
          (is_some_text_iff release_label (get "release" payload)).1
            (r, released, (is_label_iff 51 r).1 r_label);
      namespace =
          (is_some_text_iff dns_label (get "namespace" payload)).1
            (n, named, (is_label_iff 61 n).1 n_label);
      chart = λ deploy.
          let (s, charted, filled) = a.chart (deploys.0 deploy) in
          (is_some_text_iff _ (get "chart" payload)).1 (s, charted, (not_empty_iff s).1 filled);
      values = λ deploy. (is_object_iff (get "values" payload)).1 (a.values (deploys.0 deploy));
    }

-- A command that is an object with an object for its payload has no error exactly when it is
-- acceptable: a deploy or an uninstall with an identifier of 1 to 128 characters, no parameter
-- but the known ones and `__proto__`, a release of at most 53 and a namespace of at most 63 letters,
-- digits and dashes without a dash at an end, and for a deploy a chart and values.
pub validate-clean_iff :
    (c : Value) (command payload : Fields)
    → members c ≡ some command
    → as_object (get "payload" command) ≡ some payload
    → (validate c ≡ []) ↔ IsAcceptable command payload
validate-clean_iff c command payload e f =
    let rule = validate-IsTested_iff c command payload e f in
    (
      λ clean. tested-IsAcceptable command payload (rule.0 clean),
      λ a. rule.1 (acceptable-IsTested command payload a),
    )
