-- ===== src/Connector/Calls.antt =====
-- Which calls a part of the adapter adds, and how many (connector-adapter.mjs).
use facis_zero_trust_demonst.Base.{
  ℕ, ◌+◌, ◌≤◌, String, ◌≡◌, refl, sym, ◌∙◌, ap, List, [], ◌∷◌, ◌++◌, arith, length, length-append,
  All, All-append, subst,
}
use mathlib.Core.List.{append-nil, append_assoc}
use facis_zero_trust_demonst.Connector.Settling.{Settles}
use facis_zero_trust_demonst.Connector.Protocol.{
  Call, Action, Session, Network, Result, ok, err, Event, continue, send, emit, pure, ◌>>=◌,
}

-- A part adds at most `n` calls, of which `Q` holds, and keeps those before.
pub record Adds (Q : Call → Type 0) (n : ℕ) (before after : List Call) : Type 0 where
  pub new : List Call
  pub appended : after ≡ before ++ new
  pub each : All Q new
  pub few : length new ≤ n

pub record Grows {A : Type 0} (Q : Call → Type 0) (n : ℕ) (m : Action A) : Type 0 where
  pub adds : (s : Session) → Adds Q n s.calls (m s).1.calls

module _ {Q : Call → Type 0} where
  pub Adds-none : (n : ℕ) (calls : List Call) → Adds Q n calls calls
  Adds-none n calls = record {
    new = [];
    appended = sym (append-nil calls);
    each = tt;
    few = omega arith;
  }

  pub Adds-then : {m n : ℕ} (a b c : List Call) → Adds Q m a b → Adds Q n b c → Adds Q (m + n) a c
  Adds-then a b c x y = record {
    new = x.new ++ y.new;
    appended = y.appended ∙ ap (λ l. l ++ y.new) x.appended ∙ append_assoc a x.new y.new;
    each = All-append Q x.new y.new x.each y.each;
    few = omega (arith, length-append x.new y.new, x.few, y.few);
  }

  pub Adds-more : {m n : ℕ} (a b : List Call) → m ≤ n → Adds Q m a b → Adds Q n a b
  Adds-more a b le x = record {
    new = x.new;
    appended = x.appended;
    each = x.each;
    few = omega (arith, x.few, le);
  }

  pub send-Grows : (net : Network) (call : Call) → Q call → Grows Q 1 (send net call)
  unfolding send
  send-Grows net call q = record {
    adds = λ s. record { new = call ∷ []; appended = refl; each = (q, tt); few = omega arith };
  }

  pub emit-Grows : (event : Event) → Grows Q 0 (emit event)
  unfolding emit
  emit-Grows event = record { adds = λ s. Adds-none 0 s.calls }

  pub pure-Grows : {A : Type 0} (a : A) → Grows Q 0 (pure a)
  pure-Grows a = record { adds = λ s. Adds-none 0 s.calls }

  pub Settles-Grows :
      {A : Type 0} {m : Action A} (stage : String)
      → ((s : Session) → Settles stage s (m s))
      → Grows Q 0 m
  Settles-Grows stage settles = record {
    adds = λ s.
        let (r, at, same) = settles s in
        subst (λ x. Adds Q 0 s.calls x.1.calls) (sym same) (Adds-none 0 s.calls);
  }

  module _ {A B : Type 0} where
    pub continue-Grows :
        {m n : ℕ} (before : List Call) (r : Result A × Session) (f : A → Action B)
        → Adds Q m before r.1.calls
        → ((a : A) → Grows Q n (f a))
        → Adds Q (m + n) before (continue r f).1.calls
    continue-Grows before (ok a, s) f x g = Adds-then before s.calls _ x ((g a).adds s)
    continue-Grows before (err e, s) f x g = Adds-more before s.calls (omega arith) x

    -- What a part adds, and then what follows it.
    pub bind-Grows :
        {m n : ℕ} {x : Action A} {f : A → Action B}
        → Grows Q m x
        → ((a : A) → Grows Q n (f a))
        → Grows Q (m + n) (x >>= f)
    bind-Grows {x = x} {f = f} g h = record {
      adds = λ s. continue-Grows s.calls (x s) f (g.adds s) h;
    }
