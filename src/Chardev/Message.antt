-- ===== src/Chardev/Message.antt =====
-- What the readers of the device get.
use dso_fifo.Prelude.{
  ℕ, zero, suc, ◌+◌, ◌≤◌, ◌≡◌, refl, sym, ap, ◌∙◌, true, false, Option, some, List, [], ◌∷◌, ◌++◌,
  ltb, ◌==◌, ==_false, lt→ltb, if◌then◌else◌, ◌>>=◌, arith, length, length-append, take, drop,
  take-append-drop, get_elem?, IsText, not, add32,
}
use mathlib.Core.List.{append_assoc}
use dso_fifo.Chardev.{
  Kernel, Chardev, told_you, times_hello, success, error, ebusy, buf_len, message, print_message,
  device_open, device_release, device_read, read_loop,
}

-- a place in two lists put together
get_elem?-append :
    (front rest : List ℕ) → (c : ℕ) → get_elem? (front ++ c ∷ rest) (length front) ≡ some c
get_elem?-append [] rest c = refl
get_elem?-append (x ∷ xs) rest c = get_elem?-append xs rest c

-- The loop, from where `rest` is left of the text.
read_loop-text :
    (front rest behind : List ℕ) (len : ℕ)
    → IsText rest
    → read_loop (front ++ (rest ++ 0 ∷ behind)) (length front) len
      ≡ some (take len rest, length front + length (take len rest))
unfolding read_loop
read_loop-text front rest behind zero t = ground arith
read_loop-text front [] behind (suc len) t = ground (arith, get_elem?-append front behind 0)
read_loop-text front (c ∷ rest) behind (suc len) t =
    let ih : read_loop (front ++ (c ∷ (rest ++ 0 ∷ behind))) (length front + 1) len
        ≡ some (take len rest, length front + 1 + length (take len rest)) =
      simp (append_assoc, length-append) at
        (read_loop-text (front ++ c ∷ []) rest behind len (t.1)) in
    ground (arith, get_elem?-append front (rest ++ 0 ∷ behind) c, t.0, ih)

IsText-drop : (n : ℕ) (rest : List ℕ) → IsText rest → IsText (drop n rest)
IsText-drop zero rest t = t
IsText-drop (suc n) [] t = tt
IsText-drop (suc n) (x ∷ rest) t = IsText-drop n rest (t.1)

take-nil : (n : ℕ) → take {A = ℕ} n [] ≡ []
take-nil zero = refl
take-nil (suc n) = refl

take-add : (m n : ℕ) (rest : List ℕ) → take m rest ++ take n (drop m rest) ≡ take (m + n) rest
take-add zero n rest = ap (λ k. take k rest) (omega arith)
take-add (suc m) n [] = take-nil n ∙ sym (take-nil (suc m + n))
take-add (suc m) n (x ∷ rest) =
    let one_more : suc (m + n) ≡ suc m + n = omega arith in
    ap (λ ys. x ∷ ys) (take-add m n rest) ∙ ap (λ k. take k (x ∷ rest)) one_more

IsText-append : (xs ys : List ℕ) → IsText xs → IsText ys → IsText (xs ++ ys)
IsText-append [] ys t u = u
IsText-append (x ∷ xs) ys t u = (t.0, IsText-append xs ys t.1 u)

unfoldable pub sum : List ℕ → ℕ
sum [] = 0
sum (n ∷ ns) = n + sum ns

module _ (k : Kernel) where
  message-IsText : (n : ℕ) → IsText (k.decimal n) → IsText (message k n)
  message-IsText n t =
      IsText-append told_you _ (omega arith)
        (IsText-append (k.decimal n) times_hello t (omega arith))

  pub length-message : (n : ℕ) → length (message k n) ≡ 39 + length (k.decimal n)
  length-message n = omega (arith, length-append (k.decimal n) times_hello)

  -- `rest` is what the reader has not read of the message.
  pub record Unread (rest : List ℕ) (d : Chardev k) : Type 0 where
    pub front : List ℕ
    pub behind : List ℕ
    pub stored : d.msg ≡ front ++ (rest ++ 0 ∷ behind)
    pub place : d.msg_ptr ≡ some (length front)
    pub text : IsText rest

  -- What a list of reads gets, each for at most so many bytes.
  unfoldable pub reads : List ℕ → Chardev k → Option (List ℕ × Chardev k)
  reads [] d = some ([], d)
  reads (len ∷ lens) d = do r ← device_read k len d; q ← reads lens (r.1); some (r.0 ++ q.0, q.1)

  abbrev moved : ℕ → Chardev k → Chardev k
  moved i d = record d { msg_ptr = some i }

  device_read-runs :
      (front rest behind : List ℕ) (len : ℕ) (d : Chardev k)
      → IsText rest
      → d.msg ≡ front ++ (rest ++ 0 ∷ behind)
      → d.msg_ptr ≡ some (length front)
      → device_read k len d ≡ some (take len rest, moved (length front + length (take len rest)) d)
  unfolding device_read
  device_read-runs front [] behind len d t st at =
      let got : get_elem? d.msg (length front) ≡ some 0 =
        ap (λ m. get_elem? m (length front)) st ∙ get_elem?-append front behind 0 in
      rw (at, got, device_read, take-nil len) (ap (λ i. some ([], moved i d)) (omega arith))
  device_read-runs front (c ∷ rest) behind len d t st at =
      let got : get_elem? d.msg (length front) ≡ some c =
        ap (λ m. get_elem? m (length front)) st ∙ get_elem?-append front (rest ++ 0 ∷ behind) c in
      let runs =
        ap (λ m. read_loop m (length front) len) st
        ∙ read_loop-text front (c ∷ rest) behind len t in
      rw (at, got, device_read, ==_false c 0 (t.0), if◌then◌else◌, runs) refl

  moved-Unread :
      (rest : List ℕ) (len : ℕ) (d : Chardev k) (u : Unread rest d)
      → Unread (drop len rest) (moved (length u.front + length (take len rest)) d)
  moved-Unread rest len d u = record {
    front = u.front ++ take len rest;
    behind = u.behind;
    stored =
        u.stored
        ∙ ap (λ l. u.front ++ (l ++ 0 ∷ u.behind)) (sym (take-append-drop len rest))
        ∙ ap (λ l. u.front ++ l) (append_assoc (take len rest) (drop len rest) (0 ∷ u.behind))
        ∙ sym (append_assoc u.front (take len rest) (drop len rest ++ 0 ∷ u.behind));
    place = ap some (sym (length-append u.front (take len rest)));
    text = IsText-drop len rest u.text;
  }

  -- what a read leaves alone
  record SameCounts (d d' : Chardev k) : Type 0 where
    opens : d'.device_opens ≡ d.device_opens
    counts : d'.counter ≡ d.counter

  reads_lem :
      (lens : List ℕ) (rest : List ℕ) (d : Chardev k)
      → Unread rest d
      → (d' : Chardev k) × (reads lens d ≡ some (take (sum lens) rest, d')) × SameCounts d d'
  unfolding reads sum
  reads_lem [] rest d u = (d, refl, record { opens = refl; counts = refl })
  reads_lem (len ∷ lens) rest d u =
      let one = device_read-runs u.front rest u.behind len d u.text u.stored u.place in
      let (d', more, same) = reads_lem lens (drop len rest) _ (moved-Unread rest len d u) in
      (
        d',
        rw (one, reads, more, take-add len (sum lens) rest) refl,
        record { opens = same.opens; counts = same.counts },
      )

  abbrev pub opened : Chardev k → Chardev k
  opened d = record d {
    device_opens = add32 d.device_opens 1;
    counter = add32 d.counter 1;
    msg = message k d.counter ++ 0 ∷ drop (length (message k d.counter) + 1) d.msg;
    msg_ptr = some 0;
    uses = k.try_module_get d.uses;
  }

  device_open-opens :
      (d : Chardev k)
      → d.device_opens ≡ 0
      → ltb (length (message k d.counter)) buf_len ≡ true
      → device_open k d ≡ some (success, opened d)
  unfolding device_open print_message
  device_open-opens d closed fits =
      let free : not (d.device_opens == 0) ≡ false = ground (arith, closed) in
      rw (free, fits, device_open, print_message, if◌then◌else◌) refl

  -- Opening a device that is not open and then reading it, in any portions, gives the message with the
  -- number of the opening, or as much of it as is asked for, where "%d" prints at most eleven
  -- characters and no NUL. No write of `sprintf` is out of bounds and no read leaves the text. While
  -- the device is open another opening is refused with -EBUSY and changes nothing; after the release
  -- it is not open, and the number is one higher, modulo 2 ^ 32.
  pub reads_give_message :
      (d : Chardev k) (lens : List ℕ)
      → IsText (k.decimal d.counter)
      → length (k.decimal d.counter) ≤ 11
      → d.device_opens ≡ 0
      → (d' e : Chardev k) × (device_open k d ≡ some (success, d'))
        × (reads lens d' ≡ some (take (sum lens) (message k d.counter), e))
        × (device_open k e ≡ some (error ebusy, e))
        × ((device_release k e).1.device_opens ≡ 0)
        × ((device_release k e).1.counter ≡ add32 d.counter 1)
  unfolding device_open print_message device_release
  reads_give_message d lens t short closed =
      let d' : Chardev k = opened d in
      let fits =
        lt→ltb (length (message k d.counter)) buf_len (omega (arith, length-message d.counter)) in
      let (e, more, same) = reads_lem lens (message k d.counter) d' (record {
        front = [];
        behind = drop (length (message k d.counter) + 1) d.msg;
        stored = refl;
        place = refl;
        text = message-IsText d.counter t;
      }) in
      let busy : e.device_opens ≡ 1 = omega (arith, same.opens, closed) in
      (
        d',
        e,
        device_open-opens d closed fits,
        more,
        ground (arith, busy),
        omega (arith, busy),
        same.counts,
      )
