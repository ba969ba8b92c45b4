-- ===== src/Automation/Journal.antt =====
-- The journal of a run and `once`: tools/automation/controller/engine.ts and store.ts. The process may
-- stop at any save or effect; the next one then goes on from the journal as it was last saved.
use zao_rental.Common.{
  ℕ, ◌+◌, Bool, true, false, not, ◌&&◌, Option, none, some, List, [], ◌∷◌, String, str_eq, ltb,
  if◌then◌else◌,
}

pub data Kind : Type 0 where
  branch push implement verify draft ci review observe : Kind

-- The digest of an operation's text is its `input_hash`.
pub record Operation : Type 0 where
  pub kind : Kind
  pub key : String
  pub input_hash : String

-- `OperationRecord`: the hash of the input, and the result once it is done.
pub data Entry : Type 0 where
  intent : String → Entry
  finished : String → String → Entry

-- The part of `RunRecord` that `once` reads and changes.
pub record Journal : Type 0 where
  pub operations : List (String × Entry)
  pub model_attempts : ℕ
  pub review_attempts : ℕ

pub data Stop : Type 0 where
  operation_input_changed unknown_effect model_call_limit review_call_limit interrupted : Stop

pub data Ended : Type 0 where
  result : String → Ended
  stopped : Stop → Ended

-- What happens around one call: whether the first save and the last one succeed, what the effect
-- returns, and what the reconciliation finds; `none` is an exception or a crash.
pub record Fate : Type 0 where
  pub first_save : Bool
  pub invoked : Option String
  pub reconciled : Option (Option String)
  pub last_save : Bool

-- The journal in memory and the one on disk, the effects so far (the latest first), and the end.
pub record World : Type 0 where
  pub memory : Journal
  pub disk : Journal
  pub effects : List Operation

abbrev pub lookup : String → List (String × Entry) → Option Entry
lookup k [] = none
lookup k ((j, e) ∷ m) = if str_eq j k then some e else lookup k m

-- `operations[key] = entry`
abbrev pub assign : String → Entry → Journal → Journal
assign k e j = record j { operations = (k, e) ∷ j.operations }

abbrev pub is_implement : Kind → Bool
is_implement implement = true
is_implement _ = false

abbrev pub is_review : Kind → Bool
is_review review = true
is_review _ = false

abbrev pub hash_of : Entry → String
hash_of (intent h) = h
hash_of (finished h r) = h

-- `++modelAttempts` and `++reviewAttempts`, each for its kind.
abbrev pub counted : Kind → Journal → Journal
counted k j =
    if is_implement k
    then record j { model_attempts = j.model_attempts + 1 }
    else if is_review k
    then record j { review_attempts = j.review_attempts + 1 }
    else j

abbrev pub limit_of : Kind → Journal → Option Stop
limit_of k j =
    if is_implement k && ltb 3 j.model_attempts
    then some model_call_limit
    else if is_review k && ltb 3 j.review_attempts
    then some review_call_limit
    else none

-- `journal.save()`
abbrev pub saved : World → World
saved w = record w { disk = w.memory }

-- From the result on: it is noted as done, and saved unless the process stops.
abbrev pub settle : Operation → Fate → String → World → World × Ended
settle op f r w =
    let w' = record w { memory = assign op.key (finished op.input_hash r) w.memory } in
    if f.last_save then (saved w', result r) else (w', stopped interrupted)

-- The effect itself, after the intent has been saved.
abbrev pub effect : Operation → Fate → World → World × Ended
effect op f w =
    let w' = record w { effects = op ∷ w.effects } in
    elim f.invoked [ none ↦ (w', stopped interrupted) | some r ↦ settle op f r w' ]

abbrev pub begin_new : Operation → Fate → World → World × Ended
begin_new op f w =
    let w' = record w { memory = assign op.key (intent op.input_hash) w.memory } in
    if f.first_save then effect op f (saved w') else (w', stopped interrupted)

abbrev pub limited : Operation → Fate → World → Option Stop → World × Ended
limited op f w (some s) = (w, stopped s)
limited op f w none = begin_new op f w

abbrev pub reconcile_old : Operation → Fate → World → Option (Option String) → World × Ended
reconcile_old op f w none = (w, stopped interrupted)
reconcile_old op f w (some none) = (w, stopped unknown_effect)
reconcile_old op f w (some (some r)) = settle op f r w

abbrev pub old_entry : Operation → Fate → World → Entry → World × Ended
old_entry op f w (finished h r) = (w, result r)
old_entry op f w (intent h) = reconcile_old op f w f.reconciled

-- The two counters are tested before the intent is noted.
abbrev pub new_entry : Operation → Fate → World → World × Ended
new_entry op f w =
    let w' = record w { memory = counted op.kind w.memory } in
    limited op f w' (limit_of op.kind w'.memory)

abbrev pub with_entry : Operation → Fate → World → Option Entry → World × Ended
with_entry op f w none = new_entry op f w
with_entry op f w (some e) =
    if not (str_eq (hash_of e) op.input_hash)
    then (w, stopped operation_input_changed)
    else old_entry op f w e

-- `once`
unfoldable pub once : Operation → Fate → World → World × Ended
once op f w = with_entry op f w (lookup op.key w.memory.operations)

abbrev pub no_journal : Journal
no_journal = record { operations = []; model_attempts = 0; review_attempts = 0 }

abbrev pub new_world : World
new_world = record { memory = no_journal; disk = no_journal; effects = [] }

-- What any sequence of calls, of saves in between and of restarts from the disk leads to.
pub data Reaches : World → Type 0 where
  begin : Reaches new_world
  call : (op : Operation) (f : Fate) (w : World) → Reaches w → Reaches (once op f w).0
  save : (w : World) → Reaches w → Reaches (saved w)
  restart : (w : World) → Reaches w → Reaches (record w { memory = w.disk })
