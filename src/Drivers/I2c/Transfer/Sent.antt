-- ===== src/Drivers/I2c/Transfer/Sent.antt =====
-- What the transfers of src/drivers/i2c.c have done to the peripheral when they return.
use nsumo_video.Prelude.{
  set, ℕ, zero, suc, ◌+◌, ◌≡◌, refl, sym, ap, ◌∙◌, ◌≢◌, some, List, [], ◌∷◌, ◌++◌,
}
use nsumo_video.Drivers.I2c.{
  Result, Signals, i2c_wait_tx_byte, i2c_wait_rx_byte, i2c_wait_start_condition, i2c_stop_transfer,
}
use nsumo_video.Drivers.I2c.Transfer.{
  Act, tx_byte, Bus, Peripheral, act, wait, unless_error, send_bytes, i2c_send_addr,
  i2c_start_rx_transfer, i2c_write, receive_at, receive_down, i2c_read,
}

-- From `b`, all of `full` was done behind a result without an error, and a first part of it behind an
-- error.
pub data Sends (b : Bus) (full : List Act) : Result × Bus → Type 0 where
  whole : (b' : Bus) → b'.acts ≡ b.acts ++ full → Sends b full (Result.ok, b')
  part :
      (r : Result) (b' : Bus) (done left : List Act)
      → r ≢ Result.ok
      → full ≡ done ++ left
      → b'.acts ≡ b.acts ++ done
      → Sends b full (r, b')

++-assoc : (xs ys zs : List Act) → (xs ++ ys) ++ zs ≡ xs ++ (ys ++ zs)
++-assoc [] ys zs = refl
++-assoc (x ∷ xs) ys zs = ap (λ t. x ∷ t) (++-assoc xs ys zs)

++-nil : (xs : List Act) → xs ≡ xs ++ []
++-nil [] = refl
++-nil (x ∷ xs) = ap (λ t. x ∷ t) (++-nil xs)

error-ne_ok :
    (r : Result)
    → r ≢ Result.ok
    → (b : Bus) (k : Bus → Result × Bus) → unless_error (r, b) k ≡ (r, b)
error-ne_ok Result.ok h b k = absurd (h refl)
error-ne_ok Result.error_start h b k = refl
error-ne_ok Result.error_tx h b k = refl
error-ne_ok Result.error_rx h b k = refl
error-ne_ok Result.error_stop h b k = refl
error-ne_ok Result.error_timeout h b k = refl

-- A first part, then a second one unless there was an error.
unless_error-Sends :
    (b : Bus) (us vs : List Act) (o : Result × Bus) (k : Bus → Result × Bus)
    → Sends b us o
    → ((b' : Bus) → Sends b' vs (k b'))
    → Sends b (us ++ vs) (unless_error o k)
unless_error-Sends b us vs _ k (part r b' done left n e h) h2 =
    rw (error-ne_ok r n b' k)
      (part r b' done (left ++ vs) n (ap (λ t. t ++ vs) e ∙ ++-assoc done left vs) h)
unless_error-Sends b us vs _ k (whole b' h) h2 = go (k b') (h2 b')
  where
    go : (o : Result × Bus) → Sends b' vs o → Sends b (us ++ vs) o
    go _ (whole c e) = whole c (e ∙ ap (λ t. t ++ vs) h ∙ ++-assoc b.acts us vs)
    go _ (part r c done left n e f) =
        part r c (us ++ done) left n (ap (λ t. us ++ t) e ∙ sym (++-assoc us done left))
          (f ∙ ap (λ t. t ++ done) h ∙ ++-assoc b.acts us done)

act-Sends :
    (a : Act) (b : Bus) (vs : List Act) (o : Result × Bus)
    → Sends (act a b) vs o
    → Sends b (a ∷ vs) o
act-Sends a b vs _ (whole c e) = whole c (e ∙ ++-assoc b.acts (a ∷ []) vs)
act-Sends a b vs _ (part r c done left n e f) =
    part r c (a ∷ done) left n (ap (λ t. a ∷ t) e) (f ∙ ++-assoc b.acts (a ∷ []) done)

-- A result with no new acts.
still-Sends : (r : Result) (b b' : Bus) → b'.acts ≡ b.acts → Sends b [] (r, b')
still-Sends Result.ok b b' h = whole b' (h ∙ ++-nil b.acts)
still-Sends Result.error_start b b' h = part _ b' [] [] (λ e. cc) refl (h ∙ ++-nil b.acts)
still-Sends Result.error_tx b b' h = part _ b' [] [] (λ e. cc) refl (h ∙ ++-nil b.acts)
still-Sends Result.error_rx b b' h = part _ b' [] [] (λ e. cc) refl (h ∙ ++-nil b.acts)
still-Sends Result.error_stop b b' h = part _ b' [] [] (λ e. cc) refl (h ∙ ++-nil b.acts)
still-Sends Result.error_timeout b b' h = part _ b' [] [] (λ e. cc) refl (h ∙ ++-nil b.acts)

wait-Sends : (f : Signals → Result) (p : Peripheral) (b : Bus) → Sends b [] (wait f p b)
wait-Sends f p b = still-Sends (f (p.signals b.waits)) b (record b { waits = b.waits + 1 }) refl

abbrev pub tx_bytes : List ℕ → List Act
tx_bytes [] = []
tx_bytes (x ∷ xs) = tx_byte x ∷ tx_bytes xs

send_bytes-Sends :
    (p : Peripheral) (xs : List ℕ) (b : Bus) → Sends b (tx_bytes xs) (send_bytes p xs b)
unfolding send_bytes
send_bytes-Sends p [] b = whole b (++-nil b.acts)
send_bytes-Sends p (x ∷ xs) b =
    unless_error-Sends b (tx_byte x ∷ []) (tx_bytes xs) _ (send_bytes p xs)
      (act-Sends (tx_byte x) b [] _ (wait-Sends i2c_wait_tx_byte p (act (tx_byte x) b)))
      (send_bytes-Sends p xs)

-- What addresses a register.
abbrev pub addressing : ℕ → List ℕ → List Act
addressing x xs = Act.transmitter ∷ Act.start ∷ tx_byte x ∷ tx_bytes xs

i2c_send_addr-Sends :
    (p : Peripheral) (x : ℕ) (xs : List ℕ) (b : Bus)
    → Sends b (addressing x xs) (i2c_send_addr p x xs b)
unfolding i2c_send_addr
i2c_send_addr-Sends p x xs b =
    let b1 = act Act.transmitter b in
    let b2 = act Act.start b1 in
    let b3 = act (tx_byte x) b2 in
    unless_error-Sends b (Act.transmitter ∷ Act.start ∷ tx_byte x ∷ []) (tx_bytes xs) _
      (λ c. unless_error (wait i2c_wait_tx_byte p c) (send_bytes p xs))
      (act-Sends Act.transmitter b _ _ (
        act-Sends Act.start b1 _ _
          (act-Sends (tx_byte x) b2 _ _ (wait-Sends i2c_wait_start_condition p b3))))
      (λ c.
        unless_error-Sends c [] (tx_bytes xs) _ (send_bytes p xs) (wait-Sends i2c_wait_tx_byte p c)
          (send_bytes-Sends p xs))

i2c_start_rx_transfer-Sends :
    (p : Peripheral) (x : ℕ) (xs : List ℕ) (b : Bus)
    → Sends b (addressing x xs ++ (Act.receiver ∷ Act.start ∷ [])) (i2c_start_rx_transfer p x xs b)
unfolding i2c_start_rx_transfer
i2c_start_rx_transfer-Sends p x xs b =
    unless_error-Sends b (addressing x xs) (Act.receiver ∷ Act.start ∷ []) _
      (λ c. wait i2c_wait_start_condition p (act Act.start (act Act.receiver c)))
      (i2c_send_addr-Sends p x xs b)
      (λ c. act-Sends Act.receiver c _ _ (
        act-Sends Act.start (act Act.receiver c) _ _
          (wait-Sends i2c_wait_start_condition p (act Act.start (act Act.receiver c)))))

receive_at-Sends : (p : Peripheral) (i : ℕ) (b : Bus) → Sends b [] (receive_at p i b)
unfolding receive_at
receive_at-Sends p i b =
    unless_error-Sends b [] [] _
      (λ c. (Result.ok, record c { buffer = set c.buffer i (p.rx_byte c.waits) }))
      (wait-Sends i2c_wait_rx_byte p b) (λ c. whole _ (++-nil c.acts))

receive_down-Sends : (p : Peripheral) (i : ℕ) (b : Bus) → Sends b [] (receive_down p i b)
unfolding receive_down
receive_down-Sends p zero b = whole b (++-nil b.acts)
receive_down-Sends p (suc i) b =
    unless_error-Sends b [] [] _ (receive_down p i) (receive_at-Sends p (suc i) b)
      (receive_down-Sends p i)

stop-Sends :
    (p : Peripheral) (b : Bus) → Sends b (Act.stop ∷ []) (wait i2c_stop_transfer p (act Act.stop b))
stop-Sends p b = act-Sends Act.stop b [] _ (wait-Sends i2c_stop_transfer p (act Act.stop b))

-- For sizes above 0, `i2c_write` fails no assertion. Behind a result without an error it has made
-- the peripheral a transmitter and sent the start condition, the address bytes, the data bytes
-- and the stop condition, in this order and nothing else; behind an error, a first part of these.
pub i2c_write-Sends :
    (p : Peripheral) (x : ℕ) (xs : List ℕ) (d : ℕ) (ds : List ℕ) (b : Bus)
    → (o : Result × Bus) × (i2c_write p (x ∷ xs) (d ∷ ds) b ≡ some o)
      × Sends b (addressing x xs ++ (tx_bytes (d ∷ ds) ++ (Act.stop ∷ []))) o
unfolding i2c_write
i2c_write-Sends p x xs d ds b = (
  _,
  refl,
  unless_error-Sends b (addressing x xs) (tx_bytes (d ∷ ds) ++ (Act.stop ∷ [])) _ _
      (i2c_send_addr-Sends p x xs b)
      (λ c.
        unless_error-Sends c (tx_bytes (d ∷ ds)) (Act.stop ∷ []) _
          (λ e. wait i2c_stop_transfer p (act Act.stop e)) (send_bytes-Sends p (d ∷ ds) c)
          (stop-Sends p)),
)

-- For sizes above 0, `i2c_read` fails no assertion. Behind a result without an error it has made
-- the peripheral a transmitter, sent the start condition and the address bytes, made it a receiver, and
-- sent a start and the stop condition, in this order and nothing else; behind an error, a first
-- part of these.
pub i2c_read-Sends :
    (p : Peripheral) (x : ℕ) (xs : List ℕ) (n : ℕ) (b : Bus)
    → (o : Result × Bus) × (i2c_read p (x ∷ xs) (suc n) b ≡ some o)
      × Sends b (addressing x xs ++ (Act.receiver ∷ Act.start ∷ []) ++ (Act.stop ∷ [])) o
unfolding i2c_read
i2c_read-Sends p x xs n b = (
  _,
  refl,
  unless_error-Sends b (addressing x xs ++ (Act.receiver ∷ Act.start ∷ [])) (Act.stop ∷ []) _ _
      (i2c_start_rx_transfer-Sends p x xs b)
      (λ c.
        unless_error-Sends c [] (Act.stop ∷ []) _
          (λ e. unless_error (wait i2c_stop_transfer p (act Act.stop e)) (receive_at p 0))
          (receive_down-Sends p n c)
          (λ e.
            unless_error-Sends e (Act.stop ∷ []) [] _ (receive_at p 0) (stop-Sends p e)
              (receive_at-Sends p 0))),
)
