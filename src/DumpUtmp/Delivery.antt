-- ===== src/DumpUtmp/Delivery.antt =====
-- What comes out of the FIFO.
use mathlib.Core.Path.{subst}
use mathlib.Core.List.{append_assoc, append-nil}
use dso_fifo.Prelude.{
  ℕ, ◌<◌, ◌≡◌, ◌≢◌, inl, inr, refl, sym, ap, ◌∙◌, Bool, true, false, Bool-cases, Option-cases, none,
  some, eq_of_some, List, [], ◌∷◌, ◌++◌, length, length-append, take, drop, arith, min,
}
use dso_fifo.DumpUtmp.{
  Library, ReadTurn, prints, exits, send_turn, receive_turn, entry_line, entry_lines,
  print_utmp_entries,
}
use dso_fifo.DumpUtmp.Turns.{
  take-front, drop-front, not_some, entry_lines-cons, send-whole, send-fails, receive-whole,
  receive-end, receive-fails,
}
use dso_fifo.DumpUtmp.Transfer.{
  Channel, close_write_end, System, after, start, Step, Run, here, next,
}

-- the bytes of the entries that are in the pipe
unfoldable pub join : List (List ℕ) → List ℕ
join [] = []
join (e ∷ es) = e ++ join es

-- every entry is a whole `struct utmp`
abbrev pub AllWhole : ℕ → List (List ℕ) → Type 0
AllWhole size [] = Unit
AllWhole size (e ∷ es) = (length e ≡ size) × AllWhole size es

pub awake : false ≡ true → ⊥
awake e = cc

module _ (lib : Library) (ch : Channel) where
  open lib use {size}

  pub record Inv (all : List ℕ) (s : System) : Type 0 where
    pub queue : List (List ℕ)
    pub inside : s.pipe ≡ join queue
    pub whole : AllWhole size (queue ++ s.left)
    pub rest : List ℕ
    pub lines : entry_lines lib (queue ++ s.left) ≡ some rest
    pub out : s.output ++ rest ≡ all
    pub all_sent : s.sender ≡ some 0 → s.left ≡ []
    pub dozes : s.asleep ≡ true → s.pipe ≡ []
    pub heard : s.asleep ≡ true → ch.closing_wakes ≡ true → s.sender ≡ none
    pub all_read : s.receiver ≡ some 0 → (queue ≡ []) × (s.sender ≢ none)

  pub Inv-start :
      (incluye_cabecera : Bool) (entries : List (List ℕ)) (all : List ℕ)
      → AllWhole size entries
      → print_utmp_entries lib incluye_cabecera entries ≡ some all
      → Inv all (start lib ch incluye_cabecera entries)
  unfolding print_utmp_entries join
  Inv-start h entries all w e = elim (Option-cases (entry_lines lib entries)) [
    | inl fault ↦ absurd (not_some (rw (fault, print_utmp_entries) at e))
    | inr (text, got) ↦ record {
      queue = [];
      inside = refl;
      whole = w;
      rest = text;
      lines = got;
      out = eq_of_some (rw (got, print_utmp_entries) at e);
      all_sent = λ n. absurd (not_some n);
      dozes = λ n. absurd (awake n);
      heard = λ n o. refl;
      all_read = λ n. absurd (not_some n);
    }
  ]

  -- A record that is not empty, and the end of the bytes.
  pub join-empty : (q : List (List ℕ)) → AllWhole size q → join q ≡ [] → q ≡ []
  unfolding join
  join-empty [] w e = refl
  join-empty ([] ∷ q) w e = absurd (omega (arith, w.0, lib.size_fits))
  join-empty ((x ∷ xs) ∷ q) w e = absurd (omega (arith, ap length e))

  pub AllWhole-front : (q r : List (List ℕ)) → AllWhole size (q ++ r) → AllWhole size q
  AllWhole-front [] r w = tt
  AllWhole-front (e ∷ q) r w = (w.0, AllWhole-front q r w.1)

  join-snoc : (q : List (List ℕ)) (e : List ℕ) → join (q ++ e ∷ []) ≡ join q ++ e
  unfolding join
  join-snoc [] e = append-nil e
  join-snoc (x ∷ q) e = ap (λ l. x ++ l) (join-snoc q e) ∙ sym (append_assoc x (join q) e)

  write-Inv :
      {all : List ℕ} (s : System) (e : List ℕ) (es : List (List ℕ))
      → s.sender ≡ none
      → s.left ≡ e ∷ es
      → Inv all s
      → Inv all
          (record s { left = es; pipe = s.pipe ++ e; sender = send_turn lib size; asleep = false })
  write-Inv s e es on has v =
      let same : (v.queue ++ e ∷ []) ++ es ≡ v.queue ++ s.left =
        append_assoc v.queue (e ∷ []) es ∙ ap (λ l. v.queue ++ l) (sym has) in
      record {
        queue = v.queue ++ e ∷ [];
        inside = ap (λ l. l ++ e) v.inside ∙ sym (join-snoc v.queue e);
        whole = rw same v.whole;
        rest = v.rest;
        lines = rw same v.lines;
        out = v.out;
        all_sent = λ n. absurd (not_some (sym (send-whole lib) ∙ n));
        dozes = λ n. absurd (awake n);
        heard = λ n. absurd (awake n);
        all_read = λ n. absurd ((v.all_read n).1 on);
      }

  -- the oldest entry in the pipe, and what is left behind it
  pub record Front (queue left : List (List ℕ)) (text : List ℕ) : Type 0 where
    pub first : List ℕ
    pub others : List (List ℕ)
    pub line : List ℕ
    pub rest : List ℕ
    pub shape : queue ≡ first ∷ others
    pub full : length first ≡ size
    pub prints_line : entry_line lib first ≡ some line
    pub prints_rest : entry_lines lib (others ++ left) ≡ some rest
    pub parts : text ≡ line ++ rest
    pub whole : AllWhole size (others ++ left)

  front :
      (queue left : List (List ℕ)) (text : List ℕ)
      → 0 < length (join queue)
      → AllWhole size (queue ++ left)
      → entry_lines lib (queue ++ left) ≡ some text
      → Front queue left text
  unfolding join
  front [] left text more w e = absurd (omega arith)
  front (x ∷ queue) left text more w e =
      let (l, rest, one, two, sum) = entry_lines-cons lib x (queue ++ left) text e in
      record {
        first = x;
        others = queue;
        line = l;
        rest = rest;
        shape = refl;
        full = w.0;
        prints_line = one;
        prints_rest = two;
        parts = sum;
        whole = w.1;
      }

  pub front_of :
      {all : List ℕ} (s : System)
      → 0 < length s.pipe
      → (v : Inv all s) → Front v.queue s.left v.rest
  front_of s more v =
      front v.queue s.left v.rest (omega (arith, ap length v.inside)) v.whole v.lines

  front-pipe :
      {all : List ℕ} (s : System) (v : Inv all s) (f : Front v.queue s.left v.rest)
      → s.pipe ≡ f.first ++ join f.others
  unfolding join
  front-pipe s v f = v.inside ∙ ap join f.shape

  pub read-turn :
      {all : List ℕ} (s : System) (v : Inv all s) (f : Front v.queue s.left v.rest)
      → receive_turn lib (min size (length s.pipe)) (take size s.pipe) ≡ some (prints f.line)
  read-turn s v f =
      let bytes = front-pipe s v f in
      let enough : min size (length s.pipe) ≡ size =
        omega (arith, ap length bytes, length-append f.first (join f.others), f.full) in
      let block : take size s.pipe ≡ f.first =
        ap (λ l. take size l) bytes
        ∙ ap (λ n. take n (f.first ++ join f.others)) (sym f.full)
        ∙ take-front f.first (join f.others) in
      ap (λ b. receive_turn lib (min size (length s.pipe)) b) block
      ∙ receive-whole lib (min size (length s.pipe)) f.first f.line enough f.prints_line

  read-Inv :
      {all : List ℕ} (s : System) (t : ReadTurn)
      → s.receiver ≡ none
      → s.asleep ≡ false
      → 0 < length s.pipe
      → receive_turn lib (min size (length s.pipe)) (take size s.pipe) ≡ some t
      → Inv all s
      → Inv all (after t (record s { pipe = drop size s.pipe }))
  unfolding after
  read-Inv {all} s t on up more e v =
      let f = front_of s more v in
      let turn : prints f.line ≡ t = eq_of_some (sym (read-turn s v f) ∙ e) in
      subst (λ t. Inv all (after t (record s { pipe = drop size s.pipe }))) turn
        (record {
          queue = f.others;
          inside =
              ap (λ l. drop size l) (front-pipe s v f)
              ∙ ap (λ n. drop n (f.first ++ join f.others)) (sym f.full)
              ∙ drop-front f.first (join f.others);
          whole = f.whole;
          rest = f.rest;
          lines = f.prints_rest;
          out = append_assoc s.output f.line f.rest ∙ ap (λ l. s.output ++ l) (sym f.parts) ∙ v.out;
          all_sent = v.all_sent;
          dozes = λ n. absurd (awake (sym up ∙ n));
          heard = v.heard;
          all_read = λ n. absurd (not_some (sym on ∙ n));
        })

  ends-Inv :
      {all : List ℕ} (s : System) (status : ℕ)
      → (status ≡ 0 → (s.pipe ≡ []) × (s.sender ≢ none))
      → Inv all s
      → Inv all (after (exits status) s)
  unfolding after
  ends-Inv s status h v = record {
    queue = v.queue;
    inside = v.inside;
    whole = v.whole;
    rest = v.rest;
    lines = v.lines;
    out = v.out;
    all_sent = v.all_sent;
    dozes = v.dozes;
    heard = v.heard;
    all_read = λ n.
        let (empty, off) = h (eq_of_some n) in
        (join-empty v.queue (AllWhole-front v.queue s.left v.whole) (sym v.inside ∙ empty), off);
  }

  sender-Inv :
      {all : List ℕ} (s : System) (status : ℕ)
      → (status ≡ 0 → s.left ≡ [])
      → Inv all s
      → Inv all (close_write_end ch (some status) s)
  sender-Inv s status h v = record {
    queue = v.queue;
    inside = v.inside;
    whole = v.whole;
    rest = v.rest;
    lines = v.lines;
    out = v.out;
    all_sent = λ n. h (eq_of_some n);
    dozes = λ n. elim (Bool-cases ch.closing_wakes) [
      | inl wakes ↦ absurd (awake (rw wakes at n))
      | inr leaves ↦ v.dozes (rw leaves at n)
    ];
    heard = λ n wakes. absurd (awake (rw wakes at n));
    all_read = λ n. ((v.all_read n).0, λ off. not_some (sym off));
  }

  sleep-Inv :
      {all : List ℕ} (s : System)
      → s.sender ≡ none
      → s.pipe ≡ []
      → Inv all s
      → Inv all (record s { asleep = true })
  sleep-Inv s on empty v = record {
    queue = v.queue;
    inside = v.inside;
    whole = v.whole;
    rest = v.rest;
    lines = v.lines;
    out = v.out;
    all_sent = v.all_sent;
    dozes = λ n. empty;
    heard = λ n wakes. on;
    all_read = v.all_read;
  }

  pub Step-Inv : {all : List ℕ} {s u : System} → Step lib ch s u → Inv all s → Inv all u
  Step-Inv {s = s} (Step.write e es on there has room) v = write-Inv s e es on has v
  Step-Inv {all} {s} (Step.write_fails bytes on more neg) v =
      subst (λ o. Inv all (close_write_end ch o s)) (sym (send-fails lib bytes neg))
        (sender-Inv s 1 (λ n. absurd (omega arith)) v)
  Step-Inv {s = s} (Step.send_end on none_left) v = sender-Inv s 0 (λ n. none_left) v
  Step-Inv {s = s} (Step.sleep there up on empty) v = sleep-Inv s on empty v
  Step-Inv {s = s} (Step.read {t} on up more e) v = read-Inv s t on up more e v
  Step-Inv {all} {s} (Step.read_end {t} status on up off empty e) v =
      subst (λ t. Inv all (after t s)) (eq_of_some (sym (receive-end lib) ∙ e))
        (ends-Inv s 0 (λ n. (empty, λ z. not_some (sym z ∙ off))) v)
  Step-Inv {all} {s} (Step.read_fails {t} bytes on neg w e) v =
      subst (λ t. Inv all (after t s)) (eq_of_some (sym (receive-fails lib bytes neg w) ∙ e))
        (ends-Inv s 1 (λ n. absurd (omega arith)) v)

  pub Run-Inv : {all : List ℕ} {s u : System} → Run lib ch s u → Inv all s → Inv all u
  Run-Inv here v = v
  Run-Inv (next r st) v = Step-Inv st (Run-Inv r v)
