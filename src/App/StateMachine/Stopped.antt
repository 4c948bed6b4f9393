-- ===== src/App/StateMachine/Stopped.antt =====
-- Where the loop of `state_machine_run` fails an assertion.
use nsumo_video.Prelude.{
  Option-cases, ◌≡◌, refl, sym, ap, subst, ◌∙◌, inl, inr, none, some, List, [], ◌∷◌, ◌++◌, ◌>>=◌,
}
use nsumo_video.App.Machine.{Machine}
use nsumo_video.App.StateMachine.{Reading, step, run}
use nsumo_video.App.StateMachine.Invariant.{Inv}
use nsumo_video.App.StateMachine.Halting.{step-none_iff, step-Inv}
use nsumo_video.App.StateMachine.Rounds.{Refused}

-- The first rounds of a run come to `state`, from which the next one is refused.
pub record Stopped (readings : List Reading) (m : Machine) : Type 0 where
  pub before : List Reading
  pub round : Reading
  pub after : List Reading
  pub state : Machine
  pub split : readings ≡ before ++ round ∷ after
  pub reached : run before m ≡ some state
  pub refused : Refused round state

-- A run whose first round goes well is the run of the rest.
run-step :
    (x : Reading) (rs : List Reading) (m n : Machine)
    → step x m ≡ some n
    → run (x ∷ rs) m ≡ run rs n
unfolding run
run-step x rs m n e = ap (λ o. o >>= λ m'. run rs m') e

run-refused :
    (x : Reading) (rs : List Reading) (m : Machine) → step x m ≡ none → run (x ∷ rs) m ≡ none
unfolding run
run-refused x rs m e = ap (λ o. o >>= λ m'. run rs m') e

pub run-Stopped : (rs : List Reading) (m : Machine) → Inv m → run rs m ≡ none → Stopped rs m
unfolding run
run-Stopped [] m h e = cc
run-Stopped (x ∷ rs) m h e = elim (Option-cases (step x m)) [
  | inl p ↦ record {
    before = [];
    round = x;
    after = rs;
    state = m;
    split = refl;
    reached = refl;
    refused = (step-none_iff x m h).0 p;
  }
  | inr (n, p) ↦
      let s = run-Stopped rs n (step-Inv x m n h p) (sym (run-step x rs m n p) ∙ e) in
      record {
        before = x ∷ s.before;
        round = s.round;
        after = s.after;
        state = s.state;
        split = ap (λ l. x ∷ l) s.split;
        reached = run-step x s.before m n p ∙ s.reached;
        refused = s.refused;
      }
]

stopped_after :
    (before after : List Reading) (x : Reading) (m n : Machine)
    → Inv m
    → run before m ≡ some n
    → Refused x n
    → run (before ++ x ∷ after) m ≡ none
unfolding run
stopped_after [] after x m n h e k =
    let p : m ≡ n = cc in
    run-refused x after m ((step-none_iff x m h).1 (subst (Refused x) (sym p) k))
stopped_after (y ∷ before) after x m n h e k = elim (Option-cases (step y m)) [
  | inl p ↦ (let q = sym (run-refused y before m p) ∙ e in cc)
  | inr (m', p) ↦
      run-step y (before ++ x ∷ after) m m' p
      ∙ stopped_after before after x m' n (step-Inv y m m' h p) (sym (run-step y before m m' p) ∙ e)
          k
]

pub Stopped-run : (rs : List Reading) (m : Machine) → Inv m → Stopped rs m → run rs m ≡ none
Stopped-run rs m h s =
    subst (λ l. run l m ≡ none) (sym s.split)
      (stopped_after s.before s.after s.round m s.state h s.reached s.refused)
