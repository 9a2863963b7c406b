-- ===== src/Lifecycle/Output.antt =====
-- What a script's output and its end do to the jobs (ztd-lifecycle.js).
use facis_zero_trust_demonst.Base.{
  ℕ, includes, String, false, ◌≡◌, refl, sym, ◌∙◌, ap, ◌≤◌, some, List, [], ◌∷◌, ◌++◌, length,
  Value, null, lookup,
}
use Prim.Native.String
use text.Mathlib.TextLemmas.{append_assoc}
use facis_zero_trust_demonst.Lifecycle.Results.{Library, from_script}
use facis_zero_trust_demonst.Lifecycle.Lines.{split, split-append, after}
use facis_zero_trust_demonst.Lifecycle.Jobs.{Jobs, job_of, lookup-store, inherited_names, HasRoom}
use facis_zero_trust_demonst.Lifecycle.Node.{
  Child, read_lines, on_data, complete, on_error, on_close, finish, with_result,
}

module _ (lib : Library) where
  read_lines-append :
      (id : String) (xs ys : List String) (x : Value × Jobs)
      → read_lines lib id (xs ++ ys) x ≡ read_lines lib id ys (read_lines lib id xs x)
  unfolding read_lines
  read_lines-append id [] ys x = refl
  read_lines-append id (line ∷ xs) ys x = read_lines-append id xs ys _

  abbrev on_text : String → Child × Jobs → Child × Jobs
  on_text text (child, jobs) =
      let parts = split (String.◌++◌ child.buffer text) in
      let next = read_lines lib child.request_id parts.0 (child.script_result, jobs) in
      (record child { buffer = parts.1; script_result = next.0 }, next.1)

  on_text-append :
      (a b : String) (x : Child × Jobs) → on_text b (on_text a x) ≡ on_text (String.◌++◌ a b) x
  on_text-append a b (child, jobs) =
      let parts = split (String.◌++◌ child.buffer a) in
      let whole : split (String.◌++◌ child.buffer (String.◌++◌ a b)) ≡ after parts b =
        ap split (sym (append_assoc child.buffer a b))
        ∙ split-append (String.◌++◌ child.buffer a) b in
      let start : Value × Jobs = (child.script_result, jobs) in
      let read : List String × String → Child × Jobs = λ p.
        let next = read_lines lib child.request_id p.0 start in
        (record child { buffer = p.1; script_result = next.0 }, next.1) in
      let lines =
        read_lines-append child.request_id parts.0 (split (String.◌++◌ parts.1 b)).0 start in
      sym (
        ap read whole
        ∙ ap
            (λ (next : Value × Jobs). (
              record child { buffer = (split (String.◌++◌ parts.1 b)).1; script_result = next.0 },
              next.1,
            ))
            lines)

  -- Where the output is cut between two characters, the cut makes no difference: two chunks leave the
  -- script and the jobs as their concatenation does, also where a line or its end is cut in two.
  pub on_data-append :
      (a b : List ℕ) (x : Child × Jobs)
      → lib.decode (a ++ b) ≡ String.◌++◌ (lib.decode a) (lib.decode b)
      → on_data lib b (on_data lib a x) ≡ on_data lib (a ++ b) x
  unfolding on_data
  on_data-append a b x whole =
      on_text-append (lib.decode a) (lib.decode b) x ∙ ap (λ t. on_text t x) (sym whole)

  -- A script that has not ended ends once: an error leaves a system error as its job's result and a
  -- close the result that the script printed, and neither callback changes a job after that. The
  -- identifier is none that objects inherit, and it is no array index or there is room for it, since a
  -- new array index is listed first and so deleted first.
  pub ends_once :
      (x : Child × Jobs)
      → x.0.completed ≡ false
      → includes inherited_names x.0.request_id ≡ false
      → HasRoom x.0.request_id x.1
      → length x.1 ≤ 50
      → let id = x.0.request_id in
        let failed = with_result (from_script lib x.0.command null) (job_of id x.1) in
        let closed = with_result (from_script lib x.0.command x.0.script_result) (job_of id x.1) in
        (lookup id (on_error lib x).1 ≡ some failed)
        × (lookup id (on_close lib x).1 ≡ some closed)
        × ((on_close lib (on_error lib x)).1 ≡ (on_error lib x).1)
        × ((on_error lib (on_close lib x)).1 ≡ (on_close lib x).1)
  unfolding on_error on_close complete finish
  ends_once (child, jobs) e own room h =
      let id = child.request_id in
      let failed = with_result (from_script lib child.command null) in
      let closed = with_result (from_script lib child.command child.script_result) in
      rw e
        (lookup-store id failed jobs own room h, lookup-store id closed jobs own room h, refl, refl)
