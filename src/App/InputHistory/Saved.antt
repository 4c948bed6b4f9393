-- ===== src/App/InputHistory/Saved.antt =====
-- What `input_history_save` of src/app/input_history.c leaves in the history.
use mathlib.Core.Path.{subst}
use nsumo_video.Prelude.{
  if◌then◌else◌, Bool-cases, length, get_elem?, get_elem?-eq-get_or, ◌-◌, ◌≤◌, ◌<◌, ◌≡◌, refl, ap,
  ◌∙◌, ◌↔◌, inl, inr, true, false, Option, none, some, List, [], ◌∷◌, arith,
}
use nsumo_video.Common.RingBuffer.{RingBuffer}
use nsumo_video.Common.RingBuffer
use nsumo_video.Common.RingBuffer.Valid.{IsValid, init-IsValid}
use nsumo_video.Common.RingBuffer.Queue.{Holds, push, init-Holds, put_lem}
use nsumo_video.Common.RingBuffer.Count.{
  count_lem, peek_head_lem, NoWrap, wraps_of_NoWrap, put-NoWrap,
}
use nsumo_video.App.Types.{Input}
use nsumo_video.App.Index.{pos_index_inj, range_index_inj, line_index_inj}
use nsumo_video.App.InputHistory.{input_equal, is_idle, input_history_save}

-- The history holds `q`, from the oldest input to the newest. It is only put to, so it never wraps
-- with room left.
pub record IsHistory (history : RingBuffer Input) (q : List Input) : Type 0 where
  pub valid : IsValid history
  pub size : history.buffer_size ≡ 6
  pub no_wrap : NoWrap history
  pub holds : Holds history q

-- The newest of the saved inputs.
abbrev pub newest : List Input → Option Input
newest q = get_elem? q (length q - 1)

-- What the history should hold after `input`: nothing new for an idle input or for one that equals
-- the newest, and else the input as the newest of at most six.
abbrev pub saved : List Input → Input → List Input
saved q input = if is_idle input then q else elim (newest q) [
  | some last ↦ if input_equal input last then q else push 6 q input
  | none ↦ push 6 q input
]

pub input_equal_iff : (a b : Input) → (input_equal a b ≡ true) ↔ (a ≡ b)
unfolding input_equal
input_equal_iff a b = (
  λ h. ground (
    arith,
    line_index_inj a.line b.line,
    pos_index_inj a.enemy.position b.enemy.position,
    range_index_inj a.enemy.range b.enemy.range,
  ),
  λ h. rw h (ground arith),
)

pub init-IsHistory : (zeroed : Input) → IsHistory (RingBuffer.init 6 zeroed) []
unfolding RingBuffer.init
init-IsHistory zeroed = record {
  valid = init-IsValid 6 zeroed (omega arith) (omega arith);
  size = refl;
  no_wrap = inr refl;
  holds = init-Holds 6 zeroed;
}

put-IsHistory :
    {history : RingBuffer Input} (q : List Input) (input : Input)
    → IsHistory history q
    → (h' : RingBuffer Input) × (RingBuffer.put history input ≡ some h')
      × IsHistory h' (push 6 q input)
put-IsHistory q input h =
    let (h', e, v, k, s) = put_lem q input h.valid h.holds in
    (
      h',
      e,
      record {
        valid = v;
        size = s ∙ h.size;
        no_wrap = put-NoWrap input h.valid h.no_wrap e;
        holds = subst (λ n. Holds h' (push n q input)) h.size k;
      },
    )

pub count-IsHistory :
    {history : RingBuffer Input} (q : List Input)
    → IsHistory history q
    → RingBuffer.count history ≡ length q
count-IsHistory {history} q h = rw (count_lem q h.valid h.holds, wraps_of_NoWrap history h.no_wrap)

-- The saved list has at most six inputs.
pub length-IsHistory :
    {history : RingBuffer Input} (q : List Input) → IsHistory history q → length q ≤ 6
length-IsHistory q h = ground (arith, h.holds.len)

peek-newest :
    {history : RingBuffer Input} (q : List Input)
    → IsHistory history q
    → 0 < length q
    → RingBuffer.peek_head history 0 ≡ newest q
peek-newest q h k = peek_head_lem q 0 h.valid h.holds k ∙ ap (λ i. get_elem? q i) (omega arith)

-- What `input_history_save` does, by the history `q` and its newest input.
save_put :
    {history : RingBuffer Input} (q : List Input) (input : Input) (o : Option Input)
    → IsHistory history q
    → newest q ≡ o
    → is_idle input ≡ false
    → input_history_save history input ≡ elim o [
      | some last ↦ if input_equal input last then some history else RingBuffer.put history input
      | none ↦ RingBuffer.put history input
    ]
unfolding input_history_save
save_put [] input o h e idle = ground (arith, count-IsHistory [] h)
save_put (x ∷ q) input o h e idle = ground (
  arith,
  count-IsHistory (x ∷ q) h,
  peek-newest (x ∷ q) h,
  get_elem?-eq-get_or (x ∷ q) (length (x ∷ q) - 1) x,
)

skip :
    (history : RingBuffer Input) (input : Input)
    → is_idle input ≡ true
    → input_history_save history input ≡ some history
unfolding input_history_save
skip history input idle = ground arith

saved_by :
    {history : RingBuffer Input} (q : List Input) (input : Input) (o : Option Input)
    → IsHistory history q
    → newest q ≡ o
    → is_idle input ≡ false
    → (h' : RingBuffer Input) × (input_history_save history input ≡ some h')
      × IsHistory h' (saved q input)
saved_by {history} q input none h e idle =
    let (h', p, v) = put-IsHistory q input h in
    (h', save_put q input none h e idle ∙ p, rw (idle, e) v)
saved_by {history} q input (some last) h e idle = elim (Bool-cases (input_equal input last)) [
  | inl same ↦
      (history, save_put q input (some last) h e idle ∙ (rw same), rw (idle, e) (rw same h))
  | inr new ↦
      (let (h', p, v) = put-IsHistory q input h in
        (h', save_put q input (some last) h e idle ∙ (rw new p), rw (idle, e) (rw new v)))
]

-- On a history that holds `q`, `input_history_save` fails no assertion, and leaves a history that
-- holds what should be saved: `q` itself for an input with neither an enemy nor a line, or with the
-- newest input again, and else `q` with the input behind it and at most the newest six kept.
pub input_history_save_lem :
    {history : RingBuffer Input} (q : List Input) (input : Input)
    → IsHistory history q
    → (h' : RingBuffer Input) × (input_history_save history input ≡ some h')
      × IsHistory h' (saved q input)
input_history_save_lem {history} q input h = elim (Bool-cases (is_idle input)) [
  | inl idle ↦ (history, skip history input idle, rw idle h)
  | inr busy ↦ saved_by q input (newest q) h refl busy
]
