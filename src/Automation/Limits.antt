-- ===== src/Automation/Limits.antt =====
-- How often the model is called, and what a call that is done answers.
use zao_rental.Common.{◌≤◌, ◌≡◌, ap, ◌∙◌, true, none, some, arith, String}
use text.Mathlib.TextEquality.{eq_iff}
use text.Mathlib.TextPositions.{eq_refl}
use zao_rental.Automation.Journal.{
  Operation, finished, Fate, World, result, lookup, saved, once, Reaches, begin, call, save,
  restart,
}
use zao_rental.Automation.Once.{implementations}

abbrev IsCounted : World → Type 0
IsCounted w =
    (implementations w.effects ≤ 3)
    × (implementations w.effects ≤ w.memory.model_attempts)
    × (implementations w.effects ≤ w.disk.model_attempts)

once-IsCounted : (op : Operation) (f : Fate) (w : World) → IsCounted w → IsCounted (once op f w).0
unfolding once
once-IsCounted op f w v = ground (arith, v)

Reaches-IsCounted : (w : World) → Reaches w → IsCounted w
Reaches-IsCounted w begin = ground arith
Reaches-IsCounted w (call op f u h) = once-IsCounted op f u (Reaches-IsCounted u h)
Reaches-IsCounted w (save u h) = let v = Reaches-IsCounted u h in (v.0, v.1, v.1)
Reaches-IsCounted w (restart u h) = let v = Reaches-IsCounted u h in (v.0, v.2, v.2)

-- In any sequence of calls, saves and restarts, the model is called at most three times.
pub once-model_calls : (w : World) → Reaches w → implementations w.effects ≤ 3
once-model_calls w h = (Reaches-IsCounted w h).0

-- The operation is noted as done with this result, in memory and on the disk.
abbrev IsDone : Operation → String → World → Type 0
IsDone op r w =
    (lookup op.key w.memory.operations ≡ some (finished op.input_hash r))
    × (lookup op.key w.disk.operations ≡ some (finished op.input_hash r))

once-IsDone :
    (op q : Operation) (r : String) (f : Fate) (w : World)
    → IsDone op r w
    → IsDone op r (once q f w).0
unfolding once
once-IsDone op q r f w v =
    let same : q.key ≡ op.key → lookup q.key w.memory.operations ≡ some (finished op.input_hash r) =
      λ e. ap (λ x. lookup x w.memory.operations) e ∙ v.0 in
    ground (arith, v, same, eq_iff q.key op.key)

-- The later worlds.
pub data Later (w : World) : World → Type 0 where
  now : Later w w
  next_call : (op : Operation) (f : Fate) (u : World) → Later w u → Later w (once op f u).0
  next_save : (u : World) → Later w u → Later w (saved u)
  next_restart : (u : World) → Later w u → Later w (record u { memory = u.disk })

Later-IsDone :
    (op : Operation) (r : String) (w u : World) → Later w u → IsDone op r w → IsDone op r u
Later-IsDone op r w u now v = v
Later-IsDone op r w u (next_call q f t h) v = once-IsDone op q r f t (Later-IsDone op r w t h v)
Later-IsDone op r w u (next_save t h) v = let d = Later-IsDone op r w t h v in (d.0, d.0)
Later-IsDone op r w u (next_restart t h) v = let d = Later-IsDone op r w t h v in (d.1, d.1)

once-done :
    (op : Operation) (r : String) (f : Fate) (w : World)
    → IsDone op r w
    → once op f w ≡ (w, result r)
unfolding once
once-done op r f w v = ground (arith, v, eq_refl op.input_hash)

-- A call that passed and was saved.
settled-IsDone :
    (op : Operation) (r : String) (f : Fate) (w : World)
    → f.invoked ≡ some r
    → f.first_save ≡ true
    → f.last_save ≡ true
    → (once op f w).1 ≡ result r
    → lookup op.key w.memory.operations ≡ none
    → IsDone op r (once op f w).0
unfolding once
settled-IsDone op r f w i a b e n = ground (arith, i, a, b, e, n, eq_refl op.key)

-- Once a new operation has returned its result and has been saved, the same operation returns the
-- same result with no further effect, after any calls, saves and restarts and whatever happens then.
pub once-repeats :
    (op : Operation) (r : String) (f g : Fate) (w u : World)
    → lookup op.key w.memory.operations ≡ none
    → f.invoked ≡ some r
    → f.first_save ≡ true
    → f.last_save ≡ true
    → (once op f w).1 ≡ result r
    → Later (once op f w).0 u
    → once op g u ≡ (u, result r)
once-repeats op r f g w u n i a b e h =
    once-done op r g u (Later-IsDone op r (once op f w).0 u h (settled-IsDone op r f w i a b e n))
