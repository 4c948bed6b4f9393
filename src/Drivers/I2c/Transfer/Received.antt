-- ===== src/Drivers/I2c/Transfer/Received.antt =====
-- What `i2c_read` of src/drivers/i2c.c leaves in the caller's buffer.
use nsumo_video.Prelude.{
  leb, ◌==◌, if◌then◌else◌, length, get_or, set, length-set, get_or-set_self, get_or-set_ne, ℕ,
  zero, suc, ◌+◌, ◌-◌, ◌≤◌, ◌<◌, ◌≡◌, refl, sym, ap, subst, ◌∙◌, some, List, [], ◌∷◌, arith,
}
use nsumo_video.Drivers.I2c.{Result, i2c_wait_tx_byte, i2c_wait_rx_byte, i2c_stop_transfer}
use nsumo_video.Drivers.I2c.Transfer.{
  Act, tx_byte, Bus, Peripheral, act, wait, unless_error, send_bytes, i2c_send_addr,
  i2c_start_rx_transfer, receive_at, receive_down, i2c_read,
}

-- Without an error in the end there was none in the first part.
unless_error-ok :
    (o : Result × Bus) (k : Bus → Result × Bus) (b' : Bus)
    → unless_error o k ≡ (Result.ok, b')
    → (b1 : Bus) × (o ≡ (Result.ok, b1)) × (k b1 ≡ (Result.ok, b'))
unless_error-ok (Result.ok, b1) k b' e = (b1, refl, e)
unless_error-ok (Result.error_start, b1) k b' e = cc
unless_error-ok (Result.error_tx, b1) k b' e = cc
unless_error-ok (Result.error_rx, b1) k b' e = cc
unless_error-ok (Result.error_stop, b1) k b' e = cc
unless_error-ok (Result.error_timeout, b1) k b' e = cc

-- What a byte that arrived leaves.
abbrev stored_at : Peripheral → ℕ → Bus → Bus
stored_at p i b = record b {
  waits = b.waits + 1;
  buffer = set b.buffer i (p.rx_byte (b.waits + 1));
}

receive_at-ok :
    (p : Peripheral) (i : ℕ) (b b' : Bus)
    → receive_at p i b ≡ (Result.ok, b')
    → b' ≡ stored_at p i b
unfolding receive_at
receive_at-ok p i b b' e =
    let (b1, h, k) = unless_error-ok (wait i2c_wait_rx_byte p b) _ b' e in
    sym (ap (λ (q : Result × Bus). q.1) k)
    ∙ ap (λ (q : Result × Bus). record q.1 { buffer = set q.1.buffer i (p.rx_byte q.1.waits) })
        (sym h)

-- The bytes `i` down to 1 of the buffer are read, one wait each.
abbrev After : Peripheral → ℕ → Bus → Bus → Type 0
After p i b b' =
    (b'.waits ≡ b.waits + i)
    × (length b'.buffer ≡ length b.buffer)
    × ((j : ℕ)
        → 1 ≤ j
        → get_or b'.buffer j 0
          ≡ (if leb j i then p.rx_byte (b.waits + (i + 1 - j)) else get_or b.buffer j 0))

-- The bytes below index `i + 1` are still to come behind the one that is stored there.
after_stored :
    (p : Peripheral) (i j : ℕ) (b : Bus)
    → suc i < length b.buffer
    → 1 ≤ j
    → (if leb j i
        then p.rx_byte (b.waits + 1 + (i + 1 - j))
        else get_or (set b.buffer (suc i) (p.rx_byte (b.waits + 1))) j 0)
      ≡ (if leb j (suc i) then p.rx_byte (b.waits + (suc i + 1 - j)) else get_or b.buffer j 0)
after_stored p i j b l m =
    let x = p.rx_byte (b.waits + 1) in
    ground (arith, get_or-set_self b.buffer (suc i) x 0, get_or-set_ne b.buffer (suc i) j x 0)

receive_down-After :
    (p : Peripheral) (i : ℕ) (b b' : Bus)
    → i < length b.buffer
    → receive_down p i b ≡ (Result.ok, b')
    → After p i b b'
unfolding receive_down
receive_down-After p zero b b' l e =
    subst (After p 0 b) (ap (λ (q : Result × Bus). q.1) e) (omega arith, refl, λ j k. ground arith)
receive_down-After p (suc i) b b' l e =
    let (b1, h, k) = unless_error-ok (receive_at p (suc i) b) _ b' e in
    let s = receive_at-ok p (suc i) b b1 h in
    let n = stored_at p (suc i) b in
    let x = p.rx_byte (b.waits + 1) in
    let same : length n.buffer ≡ length b.buffer = length-set b.buffer (suc i) x in
    let r = receive_down-After p i n b' (omega arith) (ap (receive_down p i) (sym s) ∙ k) in
    (omega (arith, r.0), r.1 ∙ same, λ j m. r.2 j m ∙ after_stored p i j b l m)

-- Whatever the result is, the buffer is the one before.
unless_error-buffer :
    (o : Result × Bus) (k : Bus → Result × Bus) (buf : List ℕ)
    → o.1.buffer ≡ buf
    → ((c : Bus) → c.buffer ≡ buf → (k c).1.buffer ≡ buf)
    → (unless_error o k).1.buffer ≡ buf
unless_error-buffer (Result.ok, c) k buf h g = g c h
unless_error-buffer (Result.error_start, c) k buf h g = h
unless_error-buffer (Result.error_tx, c) k buf h g = h
unless_error-buffer (Result.error_rx, c) k buf h g = h
unless_error-buffer (Result.error_stop, c) k buf h g = h
unless_error-buffer (Result.error_timeout, c) k buf h g = h

send_bytes-buffer :
    (p : Peripheral) (xs : List ℕ) (b : Bus) (buf : List ℕ)
    → b.buffer ≡ buf
    → (send_bytes p xs b).1.buffer ≡ buf
unfolding send_bytes
send_bytes-buffer p [] b buf h = h
send_bytes-buffer p (x ∷ xs) b buf h =
    unless_error-buffer (wait i2c_wait_tx_byte p (act (tx_byte x) b)) (send_bytes p xs) buf h
      (λ c. send_bytes-buffer p xs c buf)

i2c_start_rx_transfer-buffer :
    (p : Peripheral) (x : ℕ) (xs : List ℕ) (b : Bus)
    → (i2c_start_rx_transfer p x xs b).1.buffer ≡ b.buffer
unfolding i2c_start_rx_transfer i2c_send_addr
i2c_start_rx_transfer-buffer p x xs b =
    unless_error-buffer (i2c_send_addr p x xs b) _ b.buffer
      (unless_error-buffer _ _ b.buffer refl (λ c h.
        unless_error-buffer (wait i2c_wait_tx_byte p c) (send_bytes p xs) b.buffer h
          (λ d. send_bytes-buffer p xs d b.buffer)))
      (λ c h. h)

first_part : (rx : ℕ → ℕ) (n i w d : ℕ) → i ≤ n → (if leb i n then rx w else d) ≡ rx w
first_part rx n i w d h = ground arith

filled :
    (rx : ℕ → ℕ) (n i w1 w3 w' : ℕ) (buf : List ℕ)
    → i ≤ n
    → 0 < length buf
    → w3 ≡ w1 + n + 1
    → w' ≡ w3 + 1
    → (1 ≤ i → get_or buf i 0 ≡ rx (w1 + (n + 1 - i)))
    → get_or (set buf 0 (rx (w3 + 1))) i 0 ≡ rx (if i == 0 then w' else w' - 1 - i)
filled rx n zero w1 w3 w' buf h l e f g = get_or-set_self buf 0 (rx (w3 + 1)) 0 l ∙ ap rx (sym f)
filled rx n (suc i) w1 w3 w' buf h l e f g =
    get_or-set_ne buf 0 (suc i) (rx (w3 + 1)) 0 (λ q. omega arith)
    ∙ g (omega arith)
    ∙ ap rx (ground arith)

-- The last byte, behind the stop condition.
read_end :
    (p : Peripheral) (n i : ℕ) (b1 b2 b' : Bus)
    → i ≤ n
    → n < length b1.buffer
    → After p n b1 b2
    → unless_error (wait i2c_stop_transfer p (act Act.stop b2)) (receive_at p 0) ≡ (Result.ok, b')
    → get_or b'.buffer i 0 ≡ p.rx_byte (if i == 0 then b'.waits else b'.waits - 1 - i)
read_end p n i b1 b2 b' hi l a e =
    let (b3, h, k) = unless_error-ok _ (receive_at p 0) b' e in
    let w : b2.waits + 1 ≡ b3.waits = ap (λ (q : Result × Bus). q.1.waits) h in
    let f : b2.buffer ≡ b3.buffer = ap (λ (q : Result × Bus). q.1.buffer) h in
    let s = receive_at-ok p 0 b3 b' k in
    let sw : b'.waits ≡ b3.waits + 1 = ap (λ (c : Bus). c.waits) s in
    let sb : b'.buffer ≡ set b3.buffer 0 (p.rx_byte (b3.waits + 1)) =
      ap (λ (c : Bus). c.buffer) s in
    let m : 0 < length b3.buffer = rw (sym f) (omega (arith, a.1)) in
    ap (λ (t : List ℕ). get_or t i 0) sb
    ∙ filled p.rx_byte n i b1.waits b3.waits b'.waits b3.buffer hi m
        (sym w ∙ ap (λ (t : ℕ). t + 1) a.0) sw
        (λ j. ap (λ (t : List ℕ). get_or t i 0) (sym f) ∙ a.2 i j ∙ first_part p.rx_byte n i _ _ hi)

-- The body of `i2c_read`.
abbrev read_body : Peripheral → ℕ → List ℕ → ℕ → Bus → Result × Bus
read_body p x xs n b = unless_error (i2c_start_rx_transfer p x xs b) (λ b1.
    unless_error (receive_down p n b1)
      (λ b2. unless_error (wait i2c_stop_transfer p (act Act.stop b2)) (receive_at p 0)))

-- An `i2c_read` into a buffer of `n + 1` bytes that returns without an error has filled it from the
-- end: byte 0 is what UCB0RXBUF shows behind the last wait, and byte `i` above it is what it shows
-- `i + 1` waits earlier.
pub i2c_read-buffer :
    (p : Peripheral) (x : ℕ) (xs : List ℕ) (n i : ℕ) (b b' : Bus)
    → i ≤ n
    → length b.buffer ≡ suc n
    → i2c_read p (x ∷ xs) (suc n) b ≡ some (Result.ok, b')
    → get_or b'.buffer i 0 ≡ p.rx_byte (if i == 0 then b'.waits else b'.waits - 1 - i)
unfolding i2c_read
i2c_read-buffer p x xs n i b b' hi l e =
    let whole : read_body p x xs n b ≡ (Result.ok, b') = cc in
    let (b1, h1, k1) = unless_error-ok (i2c_start_rx_transfer p x xs b) _ b' whole in
    let (b2, h2, k2) = unless_error-ok (receive_down p n b1) _ b' k1 in
    let f : b1.buffer ≡ b.buffer =
      ap (λ (q : Result × Bus). q.1.buffer) (sym h1) ∙ i2c_start_rx_transfer-buffer p x xs b in
    let m : n < length b1.buffer = rw f (omega arith) in
    read_end p n i b1 b2 b' hi m (receive_down-After p n b1 b2 m h2) k2
