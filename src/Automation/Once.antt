-- ===== src/Automation/Once.antt =====
-- No effect is repeated, whenever the process stops.
use zao_rental.Common.{
  ℕ, ◌+◌, ◌≤◌, ◌≡◌, refl, sym, ap, ◌∙◌, ◌↔◌, inl, inr, true, Option, none, some, List, [], ◌∷◌,
  arith, String, str_eq, if◌then◌else◌, Bool-cases, Option-cases,
}
use text.Mathlib.TextEquality.{eq_iff}
use text.Mathlib.TextPositions.{eq_refl}
use zao_rental.Automation.Journal.{
  with_entry, Kind, Operation, Entry, intent, finished, Journal, Fate, World, lookup, assign,
  is_implement, counted, limit_of, saved, settle, effect, begin_new, limited, reconcile_old,
  old_entry, once, Reaches, begin, call, save, restart, hash_of,
}

-- How many effects have the key.
abbrev pub times : String → List Operation → ℕ
times k [] = 0
times k (op ∷ ops) = (if str_eq op.key k then 1 else 0) + times k ops

-- How many effects are calls of the model.
abbrev pub implementations : List Operation → ℕ
implementations [] = 0
implementations (op ∷ ops) = (if is_implement op.kind then 1 else 0) + implementations ops

abbrev IsNoted : String → Journal → Type 0
IsNoted k j = (e : Entry) × (lookup k j.operations ≡ some e)

-- Each effect was noted before, in memory and on the disk, and was made once.
record IsOnce (w : World) : Type 0 where
  at_most_once : (k : String) → times k w.effects ≤ 1
  in_memory : (k : String) → lookup k w.memory.operations ≡ none → times k w.effects ≡ 0
  on_disk : (k : String) → lookup k w.disk.operations ≡ none → times k w.effects ≡ 0

-- The worlds that the parts of a call lead to.
abbrev remembered : Operation → Entry → World → World
remembered op e w = record w { memory = assign op.key e w.memory }

abbrev acted : Operation → World → World
acted op w = record w { effects = op ∷ w.effects }

remembered-IsOnce : (op : Operation) (e : Entry) (w : World) → IsOnce w → IsOnce (remembered op e w)
remembered-IsOnce op e w v = record {
  at_most_once = v.at_most_once;
  in_memory = λ k n. v.in_memory k (ground (arith, n));
  on_disk = v.on_disk;
}

saved-IsOnce : (w : World) → IsOnce w → IsOnce (saved w)
saved-IsOnce w v = record {
  at_most_once = v.at_most_once;
  in_memory = v.in_memory;
  on_disk = v.in_memory;
}

-- An effect whose key is noted, and that has not been made.
acted-IsOnce :
    (op : Operation) (w : World)
    → IsOnce w
    → times op.key w.effects ≡ 0
    → IsNoted op.key w.memory
    → IsNoted op.key w.disk
    → IsOnce (acted op w)
acted-IsOnce op w v z m d = record {
  at_most_once = λ k.
      let p : (str_eq op.key k ≡ true) ↔ (op.key ≡ k) = eq_iff op.key k in
      let same : op.key ≡ k → times k w.effects ≡ 0 =
        λ e. ap (λ x. times x w.effects) (sym e) ∙ z in
      let most = v.at_most_once k in ground (arith, p, same, most);
  in_memory = λ k n.
      let p : (str_eq op.key k ≡ true) ↔ (op.key ≡ k) = eq_iff op.key k in
      let same : op.key ≡ k → lookup k w.memory.operations ≡ some m.0 =
        λ e. ap (λ x. lookup x w.memory.operations) (sym e) ∙ m.1 in
      let zero_before = v.in_memory k n in ground (arith, p, same, n, zero_before);
  on_disk = λ k n.
      let p : (str_eq op.key k ≡ true) ↔ (op.key ≡ k) = eq_iff op.key k in
      let same : op.key ≡ k → lookup k w.disk.operations ≡ some d.0 =
        λ e. ap (λ x. lookup x w.disk.operations) (sym e) ∙ d.1 in
      let zero_before = v.on_disk k n in ground (arith, p, same, n, zero_before);
}

settle-IsOnce :
    (op : Operation) (f : Fate) (r : String) (w : World) → IsOnce w → IsOnce (settle op f r w).0
settle-IsOnce op f r w v =
    let u = remembered-IsOnce op (finished op.input_hash r) w v in
    elim (Bool-cases f.last_save) [
      | inl e ↦ rw e (saved-IsOnce (remembered op (finished op.input_hash r) w) u)
      | inr e ↦ rw e u
    ]

effect-IsOnce :
    (op : Operation) (f : Fate) (w : World) → IsOnce (acted op w) → IsOnce (effect op f w).0
effect-IsOnce op f w v = elim (Option-cases f.invoked) [
  | inl e ↦ rw e v
  | inr (r, e) ↦ rw e (settle-IsOnce op f r (acted op w) v)
]

begin_new-IsOnce :
    (op : Operation) (f : Fate) (w : World)
    → IsOnce w
    → times op.key w.effects ≡ 0
    → IsOnce (begin_new op f w).0
begin_new-IsOnce op f w v z =
    let noted = intent op.input_hash in
    let u = remembered-IsOnce op noted w v in
    let at : IsNoted op.key (assign op.key noted w.memory) =
      (noted, ground (arith, eq_refl op.key)) in
    let t = saved (remembered op noted w) in
    elim (Bool-cases f.first_save) [
      | inl e ↦ rw e (
          effect-IsOnce op f t (acted-IsOnce op t (saved-IsOnce (remembered op noted w) u) z at at))
      | inr e ↦ rw e u
    ]

-- Counting an attempt leaves what is noted.
counted-operations : (k : Kind) (j : Journal) → (counted k j).operations ≡ j.operations
counted-operations k j = ground arith

counted-IsOnce :
    (k : Kind) (w : World) → IsOnce w → IsOnce (record w { memory = counted k w.memory })
counted-IsOnce k w v = record {
  at_most_once = v.at_most_once;
  in_memory = λ x n. v.in_memory x (ap (lookup x) (sym (counted-operations k w.memory)) ∙ n);
  on_disk = v.on_disk;
}

limited-IsOnce :
    (op : Operation) (f : Fate) (w : World) (o : _)
    → IsOnce w
    → times op.key w.effects ≡ 0
    → IsOnce (limited op f w o).0
limited-IsOnce op f w none v z = begin_new-IsOnce op f w v z
limited-IsOnce op f w (some s) v z = v

old_entry-IsOnce :
    (op : Operation) (f : Fate) (w : World) (e : Entry) → IsOnce w → IsOnce (old_entry op f w e).0
old_entry-IsOnce op f w (finished h r) v = v
old_entry-IsOnce op f w (intent h) v = reconcile_old-IsOnce f.reconciled
  where
    reconcile_old-IsOnce : (o : Option (Option String)) → IsOnce (reconcile_old op f w o).0
    reconcile_old-IsOnce none = v
    reconcile_old-IsOnce (some none) = v
    reconcile_old-IsOnce (some (some r)) = settle-IsOnce op f r w v

with_entry-IsOnce :
    (op : Operation) (f : Fate) (w : World) (o : Option Entry)
    → lookup op.key w.memory.operations ≡ o
    → IsOnce w
    → IsOnce (with_entry op f w o).0
with_entry-IsOnce op f w none n v =
    let w' = record w { memory = counted op.kind w.memory } in
    limited-IsOnce op f w' (limit_of op.kind w'.memory) (counted-IsOnce op.kind w v)
      (v.in_memory op.key n)
with_entry-IsOnce op f w (some e) n v = elim (Bool-cases (str_eq (hash_of e) op.input_hash)) [
  | inl q ↦ rw q (old_entry-IsOnce op f w e v)
  | inr q ↦ rw q v
]

once-IsOnce : (op : Operation) (f : Fate) (w : World) → IsOnce w → IsOnce (once op f w).0
unfolding once
once-IsOnce op f w v = with_entry-IsOnce op f w (lookup op.key w.memory.operations) refl v

Reaches-IsOnce : (w : World) → Reaches w → IsOnce w
Reaches-IsOnce w begin = record {
  at_most_once = λ k. omega arith;
  in_memory = λ k n. refl;
  on_disk = λ k n. refl;
}
Reaches-IsOnce w (call op f u h) = once-IsOnce op f u (Reaches-IsOnce u h)
Reaches-IsOnce w (save u h) = saved-IsOnce u (Reaches-IsOnce u h)
Reaches-IsOnce w (restart u h) =
    let v = Reaches-IsOnce u h in
    record { at_most_once = v.at_most_once; in_memory = v.on_disk; on_disk = v.on_disk }

-- In any sequence of calls, saves and restarts, with failures and crashes at any save or effect, no
-- two effects have the same key.
pub once-at_most : (w : World) (k : String) → Reaches w → times k w.effects ≤ 1
once-at_most w k h = (Reaches-IsOnce w h).at_most_once k
