-- ===== src/Drivers/Uart/Text.antt =====
-- A text that src/drivers/uart.c sends, from the calls of `_putchar` to the last byte.
use nsumo_video.Prelude.{
  ◌==◌, if◌then◌else◌, Bool-cases, if-is_true, if-is_false, length, ◌>>=◌, ℕ, suc, ◌≡◌, refl, sym,
  ap, subst, ◌∙◌, inl, inr, Bool, true, false, none, some, List, [], ◌∷◌, ◌++◌, arith,
}
use nsumo_video.Common.RingBuffer
use nsumo_video.Common.RingBuffer.{RingBuffer, is_full}
use nsumo_video.Common.RingBuffer.Queue.{init-Holds}
use nsumo_video.Common.RingBuffer.Valid.{init-IsValid}
use mathlib.Core.List.{append_assoc, append-nil}
use nsumo_video.Drivers.Uart.{
  uart_buffer_size, Registers, Uart, uart_configure, uart_init, transmitted, interrupt, enqueue,
  put_when_room, putchar, put_text, serve,
}
use nsumo_video.Drivers.Uart.Stream.{unsent, Streams, serve-Streams, enqueue-Streams}

-- A carriage return in front of a line feed.
abbrev pub spelled : ℕ → List ℕ
spelled c = if c == 10 then 13 ∷ c ∷ [] else c ∷ []

abbrev pub all_spelled : List ℕ → List ℕ
all_spelled [] = []
all_spelled (c ∷ cs) = spelled c ++ all_spelled cs

-- After one byte of a full buffer there is room.
not_full_after :
    (given : List ℕ) (d : ℕ) (q : List ℕ) (u v : Uart)
    → Streams given (d ∷ q) u
    → Streams given q v
    → is_full v.tx_buffer ≡ false
unfolding is_full
not_full_after given d q u v s t = ground (arith, s.queue.len, s.size, t.queue.len, t.size)

put_when_room-step :
    (n c : ℕ) (u : Uart)
    → is_full u.tx_buffer ≡ true
    → put_when_room (suc n) c u ≡ (interrupt (transmitted u) >>= put_when_room n c)
unfolding put_when_room
put_when_room-step n c u f =
    if-is_true _ (interrupt (transmitted u) >>= put_when_room n c) (enqueue c u) f

full-cons :
    (given q : List ℕ) (u : Uart)
    → Streams given q u
    → is_full u.tx_buffer ≡ true
    → (d : ℕ) × (q' : List ℕ) × (q ≡ d ∷ q')
unfolding is_full
full-cons given [] u s f = absurd (ground (arith, s.queue.len, s.size, f))
full-cons given (d ∷ q) u s f = (d, q, refl)

-- With room, one test is enough.
put_when_room-room :
    (n : ℕ) (given q : List ℕ) (c : ℕ) (u : Uart)
    → Streams given q u
    → is_full u.tx_buffer ≡ false
    → (v : Uart) × (put_when_room (suc n) c u ≡ some v) × Streams (given ++ c ∷ []) (q ++ c ∷ []) v
unfolding put_when_room
put_when_room-room n given q c u s f =
    let (v, r, t) = enqueue-Streams given q c u s f in
    (v, if-is_false _ (interrupt (transmitted u) >>= put_when_room n c) _ f ∙ r, t)

-- A full buffer has room after one byte.
put_when_room-full :
    (n : ℕ) (given : List ℕ) (c d : ℕ) (q : List ℕ) (u : Uart)
    → Streams given (d ∷ q) u
    → is_full u.tx_buffer ≡ true
    → (v : Uart) × (put_when_room (suc (suc n)) c u ≡ some v)
      × Streams (given ++ c ∷ []) (q ++ c ∷ []) v
put_when_room-full n given c d q u s f =
    let (v, r, t) = serve-Streams given d q u s in
    let (w, p, x) = put_when_room-room n given q c v t (not_full_after given d q u v s t) in
    (w, put_when_room-step (suc n) c u f ∙ (ap (λ o. o >>= put_when_room (suc n) c) r ∙ p), x)

put_when_room-Streams :
    (n : ℕ) (given q : List ℕ) (c : ℕ) (u : Uart)
    → Streams given q u
    → (v : Uart) × (put_when_room (suc (suc n)) c u ≡ some v)
      × (q' : List ℕ) × Streams (given ++ c ∷ []) q' v
put_when_room-Streams n given q c u s = elim (Bool-cases (is_full u.tx_buffer)) [
  | inl f ↦
      let (d, q', e) = full-cons given q u s f in
      let (v, r, t) = put_when_room-full n given c d q' u (subst (λ l. Streams given l u) e s) f in
      (v, r, q' ++ c ∷ [], t)
  | inr f ↦ let (v, r, t) = put_when_room-room (suc n) given q c u s f in (v, r, q ++ c ∷ [], t)
]

putchar-Streams :
    (n : ℕ) (given q : List ℕ) (c : ℕ) (u : Uart)
    → Streams given q u
    → (v : Uart) × (putchar (suc (suc n)) c u ≡ some v)
      × (q' : List ℕ) × Streams (given ++ spelled c) q' v
unfolding putchar
putchar-Streams n given q c u s = elim (Bool-cases (c == 10)) [
  | inl e ↦
      let (v, r, l, t) = put_when_room-Streams n given q 13 u s in
      let (w, p, m, x) = put_when_room-Streams n (given ++ 13 ∷ []) l c v t in
      (
        w,
        if-is_true _ _ _ e ∙ (ap (λ o. o >>= put_when_room (suc (suc n)) c) r ∙ p),
        m,
        subst (λ g. Streams g m w)
            (append_assoc given (13 ∷ []) (c ∷ [])
              ∙ ap (λ l. given ++ l) (sym (if-is_true _ (13 ∷ c ∷ []) (c ∷ []) e)))
            x,
      )
  | inr e ↦
      let (w, p, m, x) = put_when_room-Streams n given q c u s in
      (
        w,
        if-is_false _ _ _ e ∙ p,
        m,
        subst (λ g. Streams g m w)
            (ap (λ l. given ++ l) (sym (if-is_false _ (13 ∷ c ∷ []) (c ∷ []) e))) x,
      )
]

-- While the driver streams, and with at least two tests for each wait, every text is taken: the calls
-- of `_putchar` return, and the driver streams what was given before and then the text, with a
-- carriage return in front of every line feed.
put_text-Streams :
    (n : ℕ) (cs given q : List ℕ) (u : Uart)
    → Streams given q u
    → (v : Uart) × (put_text (suc (suc n)) cs u ≡ some v)
      × (q' : List ℕ) × Streams (given ++ all_spelled cs) q' v
unfolding put_text
put_text-Streams n [] given q u s =
    (u, refl, q, subst (λ g. Streams g q u) (sym (append-nil given)) s)
put_text-Streams n (c ∷ cs) given q u s =
    let (v, r, l, t) = putchar-Streams n given q c u s in
    let (w, p, m, x) = put_text-Streams n cs (given ++ spelled c) l v t in
    (
      w,
      ap (λ o. o >>= put_text (suc (suc n)) cs) r ∙ p,
      m,
      subst (λ g. Streams g m w) (append_assoc given (spelled c) (all_spelled cs)) x,
    )

serve-all :
    (q given : List ℕ) (u : Uart)
    → Streams given q u
    → (v : Uart) × (serve (length q) u ≡ some v) × Streams given [] v
unfolding serve
serve-all [] given u s = (u, refl, s)
serve-all (d ∷ q) given u s =
    let (v, r, t) = serve-Streams given d q u s in
    let (w, p, x) = serve-all q given v t in (w, ap (λ o. o >>= serve (length q)) r ∙ p, x)

sent-all : (given : List ℕ) (u : Uart) → Streams given [] u → u.sent ≡ given
sent-all given u s =
    sym (append-nil u.sent) ∙ (sym (ap (λ g. u.sent ++ unsent g []) s.phase.1) ∙ s.stream)

-- The registers of the configuration, in reset.
abbrev pub reset_control : Registers
reset_control = record {
  ctl0 = 0;
  ctl1 = record { ucswrst = true; ucssel = 0; others = 0 };
  br0 = 0;
  br1 = 0;
  mctl = 0;
}

-- The driver at boot, where the peripheral's flag may be up.
abbrev pub booted : Bool → Uart
booted flag = record {
  tx_buffer = RingBuffer.init uart_buffer_size 0;
  tx_interrupt = false;
  tx_flag = flag;
  tx_byte = none;
  sent = [];
  initialized = false;
  registers = reset_control;
}

uart_init-Streams :
    (flag : Bool) → (u : Uart) × (uart_init (booted flag) ≡ some u) × Streams [] [] u
unfolding uart_init RingBuffer.init
uart_init-Streams flag = (
  record (booted flag) {
    tx_interrupt = true;
    tx_flag = false;
    initialized = true;
    registers = uart_configure reset_control;
  },
  refl,
  record {
    valid = init-IsValid 16 0 (omega arith) (omega arith);
    size = refl;
    queue = init-Holds 16 0;
    phase = (refl, refl);
    enabled = refl;
    stream = refl;
  },
)

-- From boot on, whatever the peripheral's flag is then: `uart_init` passes its assertion; for every
-- text, with at least two tests for each wait, the calls of `_putchar` return without a failed
-- assertion; and after a number of bytes that the peripheral sends with its interrupts, the bytes
-- that have left it are exactly the text, in order, with a carriage return in front of every line feed.
pub serve-put_text :
    (n : ℕ) (flag : Bool) (cs : List ℕ)
    → (u v w : Uart) × (left : ℕ) × (uart_init (booted flag) ≡ some u)
      × (put_text (suc (suc n)) cs u ≡ some v)
      × (serve left v ≡ some w)
      × (w.sent ≡ all_spelled cs)
serve-put_text n flag cs =
    let (u, i, s) = uart_init-Streams flag in
    let (v, r, l, t) = put_text-Streams n cs [] [] u s in
    let (w, p, x) = serve-all l (all_spelled cs) v t in
    (u, v, w, length l, i, r, p, sent-all (all_spelled cs) w x)
