-- ===== src/Client/Buffers.antt =====
-- The samples of a load phase on their way to the engine: `addSample` and `take` of run.go, and the phase
-- loop that hands each interval's to the engine.
--
-- Probes finish in any order among the ticks. addSample and take are sections under one mutex, and the engine
-- belongs to the phase loop, so a tick is one step from its take on.
use mathlib.Core.List.{append_assoc, append-nil}
use netquality.Prelude.{
  ◌+◌, ◌≡◌, refl, sym, ap, ◌∙◌, Bool, true, false, List, [], ◌∷◌, ◌++◌, ℤ, concat, length,
  length-append, arith, if◌then◌else◌,
}
use netquality.Float.{Float}
use netquality.Engine.Params.{Params}
use netquality.Engine.Samples.{Sample}
use netquality.Engine.State.{Engine, new}
use netquality.Engine.Interval.{interval}
use netquality.Engine.Summary.{summary, total_length}
use netquality.Engine.Frame.{interval-foreign, interval-self}

pub record Buffers : Type 0 where
  pub cur_f : List Sample
  pub cur_s : List Sample

unfoldable pub add_sample : Bool → Sample → Buffers → Buffers
add_sample self s b =
    if self then record b { cur_s = b.cur_s ++ s ∷ [] } else record b { cur_f = b.cur_f ++ s ∷ [] }

-- The samples taken, and the buffers after.
unfoldable pub take : Buffers → (List Sample × List Sample) × Buffers
take b = ((b.cur_f, b.cur_s), record { cur_f = []; cur_s = [] })

-- A probe that finishes, self or foreign, and a tick with what else the loop observes.
pub data Event : Type 0 where
  probed : Bool → Sample → Event
  ticked : ℤ → ℤ → ℤ → Event

pub record Collected (F : Type 0) : Type 0 where
  pub engine : Engine F
  pub buffers : Buffers

module _ {F : Type 0} ⦃d : Float F⦄ where
  unfoldable pub collect : Event → Collected F → Collected F
  collect (probed self s) c = record c { buffers = add_sample self s c.buffers }
  collect (ticked elapsed bytes flows) c =
      let ((foreign, self), rest) = take c.buffers in
      record {
        engine =
            (interval c.engine (record {
              elapsed = elapsed;
              bytes = bytes;
              flows = flows;
              foreign = foreign;
              self = self;
            })).0;
        buffers = rest;
      }

  unfoldable pub collect_all : List Event → Collected F → Collected F
  collect_all [] c = c
  collect_all (e ∷ es) c = collect_all es (collect e c)

-- The probes of a kind that finished, in order: the self probes, or the foreign ones.
abbrev pub finished : Bool → List Event → List Sample
finished kind [] = []
finished true (probed true s ∷ es) = s ∷ finished true es
finished true (probed false s ∷ es) = finished true es
finished false (probed true s ∷ es) = finished false es
finished false (probed false s ∷ es) = s ∷ finished false es
finished kind (ticked elapsed bytes flows ∷ es) = finished kind es

finished-cons :
    (kind : Bool) (e : Event) (es : List Event)
    → finished kind (e ∷ es) ≡ finished kind (e ∷ []) ++ finished kind es
finished-cons true (probed true s) es = refl
finished-cons true (probed false s) es = refl
finished-cons false (probed true s) es = refl
finished-cons false (probed false s) es = refl
finished-cons true (ticked elapsed bytes flows) es = refl
finished-cons false (ticked elapsed bytes flows) es = refl

concat-append :
    {A : Type 0} (xss : List (List A)) (xs : List A) → concat (xss ++ xs ∷ []) ≡ concat xss ++ xs
concat-append [] xs = append-nil xs
concat-append (ys ∷ xss) xs =
    ap (λ zs. ys ++ zs) (concat-append xss xs) ∙ sym (append_assoc ys (concat xss) xs)

total_length-concat : (xss : List (List Sample)) → total_length xss ≡ length (concat xss)
unfolding total_length
total_length-concat [] = refl
total_length-concat (xs ∷ xss) =
    omega (arith, total_length-concat xss, length-append xs (concat xss))

-- Those that the engine has logged, and those that wait for it.
abbrev pub gathered : {F : Type 0} → Bool → Collected F → List Sample
gathered true c = concat c.engine.self ++ c.buffers.cur_s
gathered false c = concat c.engine.foreign ++ c.buffers.cur_f

module _ {F : Type 0} ⦃d : Float F⦄ where
  pub gathered-collect :
      (kind : Bool) (e : Event) (c : Collected F)
      → gathered kind (collect e c) ≡ gathered kind c ++ finished kind (e ∷ [])
  unfolding collect add_sample take
  gathered-collect true (probed true s) c =
      sym (append_assoc (concat c.engine.self) c.buffers.cur_s (s ∷ []))
  gathered-collect true (probed false s) c = sym (append-nil _)
  gathered-collect false (probed true s) c = sym (append-nil _)
  gathered-collect false (probed false s) c =
      sym (append_assoc (concat c.engine.foreign) c.buffers.cur_f (s ∷ []))
  gathered-collect true (ticked elapsed bytes flows) c =
      ap (λ xs. xs ++ [])
        (ap concat (interval-self c.engine _) ∙ concat-append c.engine.self c.buffers.cur_s)
  gathered-collect false (ticked elapsed bytes flows) c =
      ap (λ xs. xs ++ [])
        (ap concat (interval-foreign c.engine _) ∙ concat-append c.engine.foreign c.buffers.cur_f)

  gathered-collect_all :
      (kind : Bool) (es : List Event) (c : Collected F)
      → gathered kind (collect_all es c) ≡ gathered kind c ++ finished kind es
  unfolding collect_all
  gathered-collect_all true [] c = sym (append-nil _)
  gathered-collect_all false [] c = sym (append-nil _)
  gathered-collect_all kind (e ∷ es) c =
      gathered-collect_all kind es (collect e c)
      ∙ ap (λ xs. xs ++ finished kind es) (gathered-collect kind e c)
      ∙ append_assoc (gathered kind c) (finished kind (e ∷ [])) (finished kind es)
      ∙ ap (λ xs. gathered kind c ++ xs) (sym (finished-cons kind e es))

  -- The summary counts what is logged and what it is handed.
  pub summary-counts :
      (e : Engine F) (f s : List Sample)
      → ((summary e f s).phase_foreign ≡ length (concat e.foreign ++ f))
        × ((summary e f s).phase_self ≡ length (concat e.self ++ s))
  unfolding summary
  summary-counts e f s = (
    ap (λ n. n + length f) (total_length-concat e.foreign)
        ∙ sym (length-append (concat e.foreign) f),
    ap (λ n. n + length s) (total_length-concat e.self) ∙ sym (length-append (concat e.self) s),
  )

  -- No probe of a load phase is lost, counted twice or moved, whatever the order of probes and ticks: of
  -- either kind, those that finished are the engine's log followed by those that its summary is still
  -- handed, and the summary counts as many.
  pub summary-finished :
      (p : Params F) (limit : ℤ) (es : List Event)
      → let c =
          collect_all es
            (record { engine = new p limit; buffers = record { cur_f = []; cur_s = [] } }) in
        let sum = summary c.engine c.buffers.cur_f c.buffers.cur_s in
        (concat c.engine.foreign ++ c.buffers.cur_f ≡ finished false es)
        × (concat c.engine.self ++ c.buffers.cur_s ≡ finished true es)
        × (sum.phase_foreign ≡ length (finished false es))
        × (sum.phase_self ≡ length (finished true es))
  unfolding summary new
  summary-finished p limit es =
      let c =
        collect_all es
          (record { engine = new p limit; buffers = record { cur_f = []; cur_s = [] } }) in
      let foreign =
        gathered-collect_all false es
          (record { engine = new p limit; buffers = record { cur_f = []; cur_s = [] } }) in
      let self =
        gathered-collect_all true es
          (record { engine = new p limit; buffers = record { cur_f = []; cur_s = [] } }) in
      let counts = summary-counts c.engine c.buffers.cur_f c.buffers.cur_s in
      (foreign, self, counts.0 ∙ ap length foreign, counts.1 ∙ ap length self)
