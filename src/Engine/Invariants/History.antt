-- ===== src/Engine/Invariants/History.antt =====
-- The statuses that a run of execute.go saves, one after the other.
use go_orchestrator.Prelude.{ℕ, zero, suc, ◌≡◌, sym, subst, inl, inr, true, Option, List, [], ◌∷◌}
use go_orchestrator.Status.{Status, can_transition_status}
use go_orchestrator.Status.Laws.{StatusPath, here, step}
use go_orchestrator.Context.{Context}
use go_orchestrator.Interfaces.{Runtime}
use go_orchestrator.Definition.{Definition}
use go_orchestrator.Engine.Monad.{Run, Call, saved, leased, acted, undone}
use go_orchestrator.Engine.Resume.{execute}
use go_orchestrator.Engine.Kept.{Identity, Moves, IsKept}
use go_orchestrator.Engine.Kept.Execute.{Free, IsApart-Free, execute-Good}

-- A status that allowed transitions lead to from another.
abbrev pub Follows : Status → Status → Type 0
Follows a b = (n : ℕ) × StatusPath a n b

path_end :
    {a b : Status} {n : ℕ} (c : Status)
    → StatusPath a n b
    → can_transition_status b c ≡ true
    → StatusPath a (suc n) c
path_end c (here s) h = step s c c 0 h (here c)
path_end c (step s t u n p q) h = step s t c (suc n) p (path_end c q h)

Follows-Moves : (a b c : Status) → Follows a b → Moves b c → Follows a c
Follows-Moves a b c f (inl e) = subst (Follows a) (sym e) f
Follows-Moves a b c f (inr h) = (suc f.0, path_end c f.1 h)

module _ {D : Type 0} where
  -- The status follows from that of the newest save, and so on down to the oldest.
  abbrev pub IsHistory : Status → List (Call D) → Type 0
  IsHistory st [] = Unit
  IsHistory st (saved x e ∷ calls) = Follows x.status st × IsHistory x.status calls
  IsHistory st (leased i e ∷ calls) = IsHistory st calls
  IsHistory st (acted name ctx x e ∷ calls) = IsHistory st calls
  IsHistory st (undone name ctx x e ∷ calls) = IsHistory st calls

  move-IsHistory :
      (b c : Status) (calls : List (Call D)) → Moves b c → IsHistory b calls → IsHistory c calls
  move-IsHistory b c [] m h = tt
  move-IsHistory b c (saved x e ∷ calls) m h = (Follows-Moves x.status b c h.0 m, h.1)
  move-IsHistory b c (leased i e ∷ calls) m h = move-IsHistory b c calls m h
  move-IsHistory b c (acted name ctx x e ∷ calls) m h = move-IsHistory b c calls m h
  move-IsHistory b c (undone name ctx x e ∷ calls) m h = move-IsHistory b c calls m h

module _ {W D : Type 0} where
  IsHistory-IsKept :
      (rs : Run W D) (v : Identity D) → IsKept rs v Free (λ s. IsHistory s.exec.status s.calls)
  IsHistory-IsKept rs v = record {
    world = record {
      apart = IsApart-Free rs.runtime rs.definition rs.locker;
      moves = λ s w m h. h;
    };
    allocates = λ s p h. h;
    changes = λ s x e e' m h. move-IsHistory s.exec.status x.status s.calls m h;
    publishes = λ s ev e n r h. h;
    leases = λ s l ctx what e at h. h;
    saves = λ s ctx e l h. ((zero, here s.exec.status), h);
    acts = λ s name ctx x e i o h. h;
    undoes = λ s name ctx x e i o h. h;
  }

  -- In a run of `Execute`, whether it returns or panics, the status of every execution that is saved
  -- follows, by allowed transitions or unchanged, from that of the execution saved before it, and the
  -- status at the end from that of the last one.
  pub execute-IsHistory :
      (r : Runtime W) (d : Definition W D) (ctx : Context) (input : Option D) (pointer : ℕ) (w : W)
      → let s = (execute r d ctx input pointer w).1.1 in IsHistory s.exec.status s.calls
  execute-IsHistory r d ctx input pointer w =
      (execute-Good r d Free (λ s. IsHistory s.exec.status s.calls) ctx input pointer w (λ w. tt)
        (λ owner. IsHistory-IsKept _ _) ((zero, here Status.pending), tt)).1
