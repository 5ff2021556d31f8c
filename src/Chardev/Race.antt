-- ===== src/Chardev/Race.antt =====
-- FicherosP3/Ejemplos/Chardev/chardev.c: any number of processes that open, read and release the device.
-- The test of `device_open` and what follows it are two steps, for there is no lock around them.
use dso_fifo.Prelude.{
  ℕ, ◌+◌, ◌^◌, ◌<◌, ◌≡◌, ◌≢◌, ◌≤◌, refl, sym, ap, ◌∙◌, true, false, some, List, [], arith, ◌==◌,
  if◌then◌else◌, ltb, lt→ltb, get_elem?, set, replicate, total, total-set, total-replicate,
  total-le, Bool-cases, inl, inr, >>=-inverse, eq_of_some, length, length-set, length-replicate,
  add32, get_elem?-set_self, get_elem?-set_ne,
}
use dso_fifo.Chardev.{
  Kernel, Chardev, success, buf_len, message, print_message, device_enter, device_release,
  device_read, read_loop, device_write,
}
use dso_fifo.Chardev.Message.{opened, length-message}

-- Where a process stands: without the device, behind the test, or with the device.
pub data Pc : Type 0 where
  without passed holding : Pc

module _ (k : Kernel) where
  pub data Move (d : Chardev k) : Pc → Chardev k → Pc → Type 0 where
    refused : (d.device_opens == 0) ≡ false → Move d without d without
    test : (d.device_opens == 0) ≡ true → Move d without d passed
    enter : {d' : Chardev k} → device_enter k d ≡ some (success, d') → Move d passed d' holding
    read :
        (len : ℕ) {bytes : List ℕ} {d' : Chardev k}
        → device_read k len d ≡ some (bytes, d')
        → Move d holding d' holding
    write : (user : List ℕ) → Move d holding (device_write k user d).1 holding
    release : Move d holding (device_release k d).1 without

  pub record System : Type 0 where
    pub state : Chardev k
    pub pcs : List Pc

  pub data Step (s : System) : System → Type 0 where
    pick :
        (i : ℕ) {p q : Pc} {d : Chardev k}
        → get_elem? s.pcs i ≡ some p
        → Move s.state p d q
        → Step s (record { state = d; pcs = set s.pcs i q })

  pub data Run (s : System) : System → Type 0 where
    here : Run s s
    next : {u v : System} → Run s u → Step u v → Run s v

abbrev pub holds : Pc → ℕ
holds holding = 1
holds _ = 0

holds-le : (p : Pc) → holds p ≤ 1
holds-le without = omega arith
holds-le passed = omega arith
holds-le holding = omega arith

module _ {k : Kernel} where
  device_enter-opens :
      (d : Chardev k) {d' : Chardev k}
      → device_enter k d ≡ some (success, d')
      → d'.device_opens ≡ add32 d.device_opens 1
  unfolding device_enter print_message
  device_enter-opens d e = elim (Bool-cases (ltb (length (message k d.counter)) buf_len)) [
    | inl fits ↦
        ap (λ r. r.1.device_opens)
          (sym (eq_of_some (rw (fits, device_enter, print_message, if◌then◌else◌) at e)))
    | inr over ↦ cc (rw (over, device_enter, print_message, if◌then◌else◌) at e)
  ]

  device_read-opens :
      (d : Chardev k) {d' : Chardev k} (len : ℕ) {bytes : List ℕ}
      → device_read k len d ≡ some (bytes, d')
      → d'.device_opens ≡ d.device_opens
  unfolding device_read
  device_read-opens d len e =
      let (i, at, f) = >>=-inverse d.msg_ptr _ e in
      let (c, got, g) = >>=-inverse (get_elem? d.msg i) _ f in
      let (r, loop, h) =
        >>=-inverse (if c == 0 then some ([], i) else read_loop d.msg i len)
          (λ r. some (r.0, record d { msg_ptr = some r.1 })) g in
      ap (λ (t : List ℕ × Chardev k). t.1.device_opens) (sym (eq_of_some h))

  -- Every process is outside, and the device is not open.
  pub record IsStart (s : System k) : Type 0 where
    pub processes : ℕ
    pub few : processes < 2 ^ 32
    pub all_without : s.pcs ≡ replicate processes without
    pub closed : s.state.device_opens ≡ 0

  record Counted (s : System k) : Type 0 where
    few : length s.pcs < 2 ^ 32
    counted : s.state.device_opens ≡ total holds s.pcs

  -- what a step adds to `Device_Open`
  Move-opens :
      {d d' : Chardev k} {p q : Pc} (n m : ℕ)
      → d.device_opens ≡ n
      → n < 2 ^ 32
      → m < 2 ^ 32
      → m + holds p ≡ n + holds q
      → Move k d p d' q
      → d'.device_opens ≡ m
  unfolding device_release device_write
  Move-opens n m e hn hm ch (Move.refused b) = omega (arith, e, ch)
  Move-opens n m e hn hm ch (Move.test b) = omega (arith, e, ch)
  Move-opens {d} n m e hn hm ch (Move.enter run) =
      omega (arith, e, ch, hn, hm, device_enter-opens d run)
  Move-opens {d} n m e hn hm ch (Move.read len run) =
      omega (arith, e, ch, device_read-opens d len run)
  Move-opens n m e hn hm ch (Move.write user) = omega (arith, e, ch)
  Move-opens n m e hn hm ch Move.release = omega (arith, e, ch, hn, hm)

  Step-Counted : {s u : System k} → Step k s u → Counted s → Counted u
  Step-Counted {s} (pick i {p} {q} at mv) v =
      let few = v.few in
      record {
        few = omega (arith, few, length-set s.pcs i q);
        counted =
            Move-opens (total holds s.pcs) (total holds (set s.pcs i q)) v.counted
              (omega (arith, few, total-le holds s.pcs holds-le))
              (omega (arith, few, length-set s.pcs i q, total-le holds (set s.pcs i q) holds-le))
              (total-set holds s.pcs i p q at) mv;
      }

  Run-Counted : {s u : System k} → Run k s u → Counted s → Counted u
  Run-Counted here v = v
  Run-Counted (next r st) v = Step-Counted st (Run-Counted r v)

  -- From a state in which fewer than 2 ^ 32 processes are all without the device, and it is not open,
  -- whatever the order of the processes: `Device_Open` is the number of the processes that have
  -- the device.
  pub opens_counted :
      {first s : System k}
      → IsStart first
      → Run k first s
      → s.state.device_opens ≡ total holds s.pcs
  opens_counted b r =
      (Run-Counted r (record {
        few = omega (arith, b.few, ap length b.all_without, length-replicate b.processes without);
        counted =
            b.closed
            ∙ sym (ap (total holds) b.all_without ∙ total-replicate holds without b.processes refl);
      })).counted

  device_enter-succeeds :
      (d : Chardev k)
      → length (k.decimal d.counter) ≤ 11
      → device_enter k d ≡ some (success, opened k d)
  unfolding device_enter print_message
  device_enter-succeeds d short =
      let fits =
        lt→ltb (length (message k d.counter)) buf_len (omega (arith, length-message k d.counter)) in
      rw (fits, device_enter, print_message, if◌then◌else◌) refl

  -- Where the device is not open and two processes are without it, and "%d" prints at most eleven
  -- characters of the two numbers to come, there is a run at whose end both have the device:
  -- each passes the test before the other counts itself.
  pub two_openers :
      (s : System k) (i j : ℕ)
      → i ≢ j
      → get_elem? s.pcs i ≡ some without
      → get_elem? s.pcs j ≡ some without
      → s.state.device_opens ≡ 0
      → length (k.decimal s.state.counter) ≤ 11
      → length (k.decimal (add32 s.state.counter 1)) ≤ 11
      → (u : System k) × Run k s u
        × (get_elem? u.pcs i ≡ some holding)
        × (get_elem? u.pcs j ≡ some holding)
        × (u.state.device_opens ≡ 2)
  two_openers s i j ne at_i at_j closed one two =
      let ps = set s.pcs i passed in
      let qs = set ps j passed in
      let rs = set qs i holding in
      let ji : j ≢ i = λ e. ne (sym e) in
      let free : (s.state.device_opens == 0) ≡ true = ground (arith, closed) in
      let j_without = get_elem?-set_ne s.pcs i j passed ne ∙ at_j in
      let i_passed = get_elem?-set_ne ps j i passed ji ∙ get_elem?-set_self s.pcs i at_i in
      let j_passed = get_elem?-set_ne qs i j holding ne ∙ get_elem?-set_self ps j j_without in
      let i_holding = get_elem?-set_ne rs j i holding ji ∙ get_elem?-set_self qs i i_passed in
      (
        _,
        next
            (next
              (next (next here (pick i at_i (Move.test free))) (pick j j_without (Move.test free)))
              (pick i i_passed (Move.enter (device_enter-succeeds s.state one))))
            (pick j j_passed (Move.enter (device_enter-succeeds (opened k s.state) two))),
        i_holding,
        get_elem?-set_self rs j j_passed,
        omega (arith, closed),
      )
