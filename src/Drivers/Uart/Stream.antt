-- ===== src/Drivers/Uart/Stream.antt =====
-- The stream of bytes that src/drivers/uart.c sends.
use nsumo_video.Prelude.{
  ◌==◌, if◌then◌else◌, if-is_true, if-is_false, length, ℕ, ◌≡◌, refl, sym, ap, subst, ◌∙◌, ◌⊎◌, inl,
  inr, Bool, true, false, Option, none, some, List, [], ◌∷◌, ◌++◌, arith,
}
use nsumo_video.Common.RingBuffer.Valid
use nsumo_video.Common.RingBuffer.{RingBuffer, is_empty, is_full, drop_tail, put}
use nsumo_video.Common.RingBuffer.Valid.{is_empty_lem}
use nsumo_video.Common.RingBuffer.Queue.{
  Holds, rest, length-not_full, put_lem, drop_tail_lem, peek_tail_lem,
}
use mathlib.Core.List.{append_assoc, append-nil}
use nsumo_video.Drivers.Uart.{
  uart_buffer_size, Uart, uart_tx_start, isr_uart_tx, byte_out, transmitted, interrupt, enqueue,
}

-- What the peripheral does while the buffer holds `q`: nothing, or it sends the oldest byte, or it has
-- sent it and asks for an interrupt.
abbrev pub Phase : List ℕ → Option ℕ → Bool → Type 0
Phase [] byte flag = (byte ≡ none) × (flag ≡ false)
Phase (c ∷ q) byte flag = ((byte ≡ some c) × (flag ≡ false)) ⊎ ((byte ≡ none) × (flag ≡ true))

-- The bytes of the buffer that have not left the peripheral.
abbrev pub unsent : Bool → List ℕ → List ℕ
unsent true q = rest q
unsent false q = q

-- The driver between two steps, where the buffer holds `q` and `given` was put so far.
pub record Streams (given q : List ℕ) (u : Uart) : Type 0 where
  pub valid : Valid.IsValid u.tx_buffer
  pub size : u.tx_buffer.buffer_size ≡ uart_buffer_size
  pub queue : Holds u.tx_buffer q
  pub phase : Phase q u.tx_byte u.tx_flag
  pub enabled : u.tx_interrupt ≡ true
  pub stream : u.sent ++ unsent u.tx_flag q ≡ given

is_empty-Holds :
    (rb : RingBuffer ℕ) (q : List ℕ) → Valid.IsValid rb → Holds rb q → is_empty rb ≡ (length q == 0)
is_empty-Holds rb q v h = is_empty_lem v ∙ ap (λ n. n == 0) (sym h.len)

is_empty-nil : (rb : RingBuffer ℕ) → Valid.IsValid rb → Holds rb [] → is_empty rb ≡ true
is_empty-nil rb v h = is_empty-Holds rb [] v h

is_empty-cons :
    (rb : RingBuffer ℕ) (c : ℕ) (q : List ℕ)
    → Valid.IsValid rb
    → Holds rb (c ∷ q)
    → is_empty rb ≡ false
is_empty-cons rb c q v h = is_empty-Holds rb (c ∷ q) v h ∙ ground arith

-- When the peripheral is ready, the oldest byte has left it.
transmitted-Streams :
    (given : List ℕ) (c : ℕ) (q : List ℕ) (u : Uart)
    → Streams given (c ∷ q) u
    → Streams given (c ∷ q) (transmitted u) × ((transmitted u).tx_flag ≡ true)
unfolding transmitted
transmitted-Streams given c q u s = elim s.phase [
  | inl (b, f) ↦
      subst (λ (v : Uart). Streams given (c ∷ q) v × (v.tx_flag ≡ true))
        (ap (λ o. byte_out o u) (sym b))
        (
          record {
            valid = s.valid;
            size = s.size;
            queue = s.queue;
            phase = inr (refl, refl);
            enabled = s.enabled;
            stream =
                append_assoc u.sent (c ∷ []) q
                ∙ (sym (ap (λ b. u.sent ++ unsent b (c ∷ q)) f) ∙ s.stream);
          },
          refl,
        )
  | inr (b, f) ↦
      subst (λ (v : Uart). Streams given (c ∷ q) v × (v.tx_flag ≡ true))
        (ap (λ o. byte_out o u) (sym b)) (s, f)
]

-- The start of the next byte.
uart_tx_start-cons :
    (c : ℕ) (q : List ℕ) (u : Uart)
    → Valid.IsValid u.tx_buffer
    → Holds u.tx_buffer (c ∷ q)
    → uart_tx_start u ≡ some (record u { tx_byte = some c; tx_flag = false })
unfolding uart_tx_start
uart_tx_start-cons c q u v h =
    ground (arith, is_empty-Holds u.tx_buffer (c ∷ q) v h, peek_tail_lem (c ∷ q) v h)

byte-asking :
    (c : ℕ) (q : List ℕ) (byte : Option ℕ) (flag : Bool)
    → Phase (c ∷ q) byte flag
    → flag ≡ true
    → byte ≡ none
byte-asking c q byte flag (inl (b, f)) h = cc
byte-asking c q byte flag (inr (b, f)) h = b

-- The interrupt, from the test of the buffer on.
isr_uart_tx-drop_tail :
    (u : Uart) (rb : RingBuffer ℕ)
    → is_empty u.tx_buffer ≡ false
    → drop_tail u.tx_buffer ≡ some rb
    → isr_uart_tx u ≡ (
        if is_empty rb
        then some (record u { tx_buffer = rb; tx_flag = false })
        else uart_tx_start (record u { tx_buffer = rb; tx_flag = false }))
unfolding isr_uart_tx
isr_uart_tx-drop_tail u rb e d = ground (arith, e, d)

-- Behind the removal of a byte that was sent: the next one is started, if there is one.
restart-Streams :
    (given q : List ℕ) (v : Uart)
    → Valid.IsValid v.tx_buffer
    → v.tx_buffer.buffer_size ≡ uart_buffer_size
    → Holds v.tx_buffer q
    → v.tx_interrupt ≡ true
    → v.tx_byte ≡ none
    → v.tx_flag ≡ false
    → v.sent ++ q ≡ given
    → (w : Uart) × ((if is_empty v.tx_buffer then some v else uart_tx_start v) ≡ some w)
      × Streams given q w
restart-Streams given [] v d z h i b f e = (
  v,
  if-is_true _ (some v) _ (is_empty-nil v.tx_buffer d h),
  record {
    valid = d;
    size = z;
    queue = h;
    phase = (b, f);
    enabled = i;
    stream = ap (λ g. v.sent ++ unsent g []) f ∙ e;
  },
)
restart-Streams given (c ∷ q) v d z h i b f e = (
  record v { tx_byte = some c; tx_flag = false },
  if-is_false _ (some v) _ (is_empty-cons v.tx_buffer c q d h) ∙ uart_tx_start-cons c q v d h,
  record { valid = d; size = z; queue = h; phase = inl (refl, refl); enabled = i; stream = e },
)

-- The interrupt takes the byte that was sent off the buffer, and starts the next one.
isr_uart_tx-Streams :
    (given : List ℕ) (c : ℕ) (q : List ℕ) (u : Uart)
    → Streams given (c ∷ q) u
    → u.tx_flag ≡ true
    → (v : Uart) × (isr_uart_tx u ≡ some v) × Streams given q v
isr_uart_tx-Streams given c q u s f =
    let (rb, d, w, h, z) = drop_tail_lem c q s.valid s.queue in
    let (v, r, t) =
      restart-Streams given q (record u { tx_buffer = rb; tx_flag = false }) w (z ∙ s.size) h
        s.enabled (byte-asking c q u.tx_byte u.tx_flag s.phase f) refl
        (sym (ap (λ b. u.sent ++ unsent b (c ∷ q)) f) ∙ s.stream) in
    (v, isr_uart_tx-drop_tail u rb (is_empty-cons u.tx_buffer c q s.valid s.queue) d ∙ r, t)

-- One byte of a busy peripheral: it leaves, and the interrupt is taken.
pub serve-Streams :
    (given : List ℕ) (c : ℕ) (q : List ℕ) (u : Uart)
    → Streams given (c ∷ q) u
    → (v : Uart) × (interrupt (transmitted u) ≡ some v) × Streams given q v
unfolding interrupt
serve-Streams given c q u s =
    let (t, f) = transmitted-Streams given c q u s in
    let (v, r, w) = isr_uart_tx-Streams given c q (transmitted u) t f in
    (v, if-is_true _ _ (some (transmitted u)) (ground (arith, t.enabled, f)) ∙ r, w)

unsent-snoc :
    (flag : Bool) (d : ℕ) (q : List ℕ) (c : ℕ)
    → unsent flag ((d ∷ q) ++ c ∷ []) ≡ unsent flag (d ∷ q) ++ c ∷ []
unsent-snoc true d q c = refl
unsent-snoc false d q c = refl

-- A byte for a ring with room.
put-room :
    (rb : RingBuffer ℕ) (q : List ℕ) (c : ℕ)
    → Valid.IsValid rb
    → Holds rb q
    → rb.full ≡ false
    → (rb' : RingBuffer ℕ) × (put rb c ≡ some rb')
      × Valid.IsValid rb'
      × Holds rb' (q ++ c ∷ [])
      × (rb'.buffer_size ≡ rb.buffer_size)
put-room rb q c v h n =
    let (rb', e, w, k, z) = put_lem q c v h in
    (
      rb',
      e,
      w,
      subst (Holds rb') (ap (λ b. (if b then rest q else q) ++ c ∷ []) (length-not_full v h n)) k,
      z,
    )

-- The part of `_putchar` behind its wait puts the byte behind the others.
pub enqueue-Streams :
    (given q : List ℕ) (c : ℕ) (u : Uart)
    → Streams given q u
    → is_full u.tx_buffer ≡ false
    → (v : Uart) × (enqueue c u ≡ some v) × Streams (given ++ c ∷ []) (q ++ c ∷ []) v
unfolding enqueue is_full
enqueue-Streams given [] c u s n =
    let (rb, e, w, h, z) = put-room u.tx_buffer [] c s.valid s.queue n in
    (
      record u { tx_buffer = rb; tx_interrupt = true; tx_byte = some c; tx_flag = false },
      ground (
        arith,
        e,
        is_empty-nil u.tx_buffer s.valid s.queue,
        uart_tx_start-cons c [] (record u { tx_interrupt = false; tx_buffer = rb }) w h,
      ),
      record {
        valid = w;
        size = z ∙ s.size;
        queue = h;
        phase = inl (refl, refl);
        enabled = refl;
        stream =
            ap (λ l. l ++ c ∷ [])
              (sym (append-nil u.sent)
                ∙ (sym (ap (λ g. u.sent ++ unsent g []) s.phase.1) ∙ s.stream));
      },
    )
enqueue-Streams given (d ∷ q) c u s n =
    let (rb, e, w, h, z) = put-room u.tx_buffer (d ∷ q) c s.valid s.queue n in
    (
      record u { tx_buffer = rb; tx_interrupt = true },
      ground (arith, e, is_empty-cons u.tx_buffer d q s.valid s.queue),
      record {
        valid = w;
        size = z ∙ s.size;
        queue = h;
        phase = s.phase;
        enabled = refl;
        stream =
            ap (λ l. u.sent ++ l) (unsent-snoc u.tx_flag d q c)
            ∙ (sym (append_assoc u.sent (unsent u.tx_flag (d ∷ q)) (c ∷ []))
                ∙ ap (λ l. l ++ c ∷ []) s.stream);
      },
    )
