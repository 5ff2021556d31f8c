-- ===== src/Kifs/Listing.antt =====
-- The list of the names: it fits in the buffer, and what it holds.
use dso_fifo.Prelude.{
  ℕ, suc, zero, ◌+◌, ◌*◌, ◌≡◌, ◌≤◌, ◌<◌, ◌⊎◌, ◌∙◌, sym, ap, refl, inl, inr, true, false, List, [],
  ◌∷◌, ◌++◌, if◌then◌else◌, ltb, length, min, take, ◌-◌, arith, length-append, lt→ltb, ltb→lt,
  ltb_false→le, le→ltb_false, Bool-cases,
}
use mathlib.Core.List.{append_assoc, append-nil}
use dso_fifo.KernelList.{KernelList}
use dso_fifo.Kifs.{
  KifsEntry, Kifs, max_kifs_entry_name_size, text_of, entry_line, out_of_room, wrote, list_lines,
  list_end, list_kifs, listed, enospc, next_chars, list_size,
}
use dso_fifo.Kifs.Entries.{IsValid}

-- the lines of the entries
pub lines : (ℕ → KifsEntry) → List ℕ → List ℕ
unfolding entry_line
lines entry [] = []
lines entry (p ∷ ps) = entry_line (entry p) ++ lines entry ps

length-text_of : (n : ℕ) (s : List ℕ) → length (text_of n s) ≤ n
unfolding text_of
length-text_of zero s = omega arith
length-text_of (suc n) s = ground (arith, length-text_of n (next_chars s))

length-entry_line : (e : KifsEntry) → length (entry_line e) ≤ 51
unfolding entry_line
length-entry_line e = omega (
  arith,
  length-text_of max_kifs_entry_name_size e.entryname,
  length-append (text_of max_kifs_entry_name_size e.entryname) (b'\n' ∷ []),
)

length-lines : (entry : ℕ → KifsEntry) (ps : List ℕ) → length (lines entry ps) ≤ 51 * length ps
unfolding lines
length-lines entry [] = omega arith
length-lines entry (p ∷ ps) = omega (
  arith,
  length-lines entry ps,
  length-entry_line (entry p),
  length-append (entry_line (entry p)) (lines entry ps),
)

not_wrote : {out : List ℕ} → out_of_room ≡ wrote out → ⊥
not_wrote h = cc

list_lines-full :
    (entry : ℕ → KifsEntry) (buffsize p : ℕ) (ps kbuff : List ℕ)
    → ltb buffsize (length kbuff + max_kifs_entry_name_size + 2) ≡ true
    → list_lines entry buffsize (p ∷ ps) kbuff ≡ out_of_room
unfolding list_lines
list_lines-full entry buffsize p ps kbuff h = rw (h, if◌then◌else◌) refl

-- Behind the guard the line and its NUL fit.
list_lines-step :
    (entry : ℕ → KifsEntry) (buffsize p : ℕ) (ps kbuff : List ℕ)
    → ltb buffsize (length kbuff + max_kifs_entry_name_size + 2) ≡ false
    → list_lines entry buffsize (p ∷ ps) kbuff
      ≡ list_lines entry buffsize ps (kbuff ++ entry_line (entry p))
unfolding list_lines
list_lines-step entry buffsize p ps kbuff h =
    let fits =
      le→ltb_false buffsize (length kbuff + length (entry_line (entry p)) + 1)
        (omega (arith, ltb_false→le _ _ h, length-entry_line (entry p))) in
    rw (h, if◌then◌else◌) (rw (fits, if◌then◌else◌) refl)

-- Where there is room for 52 characters for each entry, the loop prints them all.
list_lines-room :
    (entry : ℕ → KifsEntry) (buffsize : ℕ) (ps kbuff : List ℕ)
    → length kbuff + 52 * length ps ≤ buffsize
    → list_lines entry buffsize ps kbuff ≡ wrote (kbuff ++ lines entry ps)
unfolding list_lines lines
list_lines-room entry buffsize [] kbuff h = ap wrote (sym (append-nil kbuff))
list_lines-room entry buffsize (p ∷ ps) kbuff h =
    list_lines-step entry buffsize p ps kbuff
      (le→ltb_false buffsize (length kbuff + max_kifs_entry_name_size + 2) (omega arith))
    ∙ list_lines-room entry buffsize ps (kbuff ++ entry_line (entry p))
        (omega (arith, length-append kbuff (entry_line (entry p)), length-entry_line (entry p)))
    ∙ ap wrote (append_assoc kbuff (entry_line (entry p)) (lines entry ps))

-- The loop stops at its guard, or writes all lines and leaves room for the terminator.
list_lines_cases :
    (entry : ℕ → KifsEntry) (buffsize : ℕ) (ps kbuff : List ℕ)
    → length kbuff < buffsize
    → (list_lines entry buffsize ps kbuff ≡ out_of_room)
      ⊎ (list_lines entry buffsize ps kbuff ≡ wrote (kbuff ++ lines entry ps))
        × (length (kbuff ++ lines entry ps) < buffsize)
unfolding list_lines lines
list_lines_cases entry buffsize [] kbuff h =
    inr (ap wrote (sym (append-nil kbuff)), omega (arith, h, ap length (append-nil kbuff)))
list_lines_cases entry buffsize (p ∷ ps) kbuff h =
    elim (Bool-cases (ltb buffsize (length kbuff + max_kifs_entry_name_size + 2))) [
      | inl full ↦ inl (list_lines-full entry buffsize p ps kbuff full)
      | inr room ↦
          let step = list_lines-step entry buffsize p ps kbuff room in
          let same = append_assoc kbuff (entry_line (entry p)) (lines entry ps) in
          elim (list_lines_cases entry buffsize ps (kbuff ++ entry_line (entry p)) (
            omega (
              arith,
              ltb_false→le _ _ room,
              length-append kbuff (entry_line (entry p)),
              length-entry_line (entry p),
            ))) [
              | inl full ↦ inl (step ∙ full)
              | inr (e, short) ↦
                  inr (step ∙ e ∙ ap wrote same, omega (arith, short, ap length same))
            ]
    ]

-- `list_kifs`, with the size of its buffer taken from an earlier state, where there was at least one
-- entry, and with at least one character of room: it writes nothing behind its buffer, whatever the
-- calls in between. It fails only where there are fewer than 52 characters of room for each entry, or
-- entries have come in between; else it gives the lines of all entries, in order, and a NUL, but for
-- the last bytes that cannot be copied.
pub list_kifs_lem :
    (l : KernelList) (maxchars missed : ℕ) (before k : Kifs l)
    → IsValid l k
    → 0 < maxchars
    → 0 < before.num_entry
    → ((maxchars < 52 * k.num_entry) ⊎ (before.num_entry < k.num_entry))
        × (list_kifs l (list_size l maxchars before) missed true k ≡ enospc)
      ⊎ (list_kifs l (list_size l maxchars before) missed true k
          ≡ listed (
              take
                (length (lines k.entry_buff (l.nodes k.entry_list)) + 1 - missed)
                (lines k.entry_buff (l.nodes k.entry_list) ++ 0 ∷ [])))
unfolding list_kifs list_end list_size
list_kifs_lem l maxchars missed before k v some_room some_entry =
    elim (list_lines_cases k.entry_buff buffsize (l.nodes k.entry_list) [] (omega arith)) [
      | inl full ↦ inl (too_short full, rw (full, list_end) refl)
      | inr (e, short) ↦ inr (
          rw
            (
              e,
              list_end,
              lt→ltb (length (lines k.entry_buff (l.nodes k.entry_list))) buffsize short,
              if◌then◌else◌,
            )
            refl)
    ]
  where
    buffsize : ℕ
    buffsize = min maxchars (52 * before.num_entry)

    room :
        (maxchars < 52 * k.num_entry)
        ⊎ (before.num_entry < k.num_entry)
        ⊎ (52 * k.num_entry ≤ buffsize)
    room = elim (Bool-cases (ltb maxchars (52 * k.num_entry))) [
      | inl less ↦ inl (ltb→lt maxchars (52 * k.num_entry) less)
      | inr enough ↦ elim (Bool-cases (ltb before.num_entry k.num_entry)) [
        | inl fewer ↦ inr (inl (ltb→lt before.num_entry k.num_entry fewer))
        | inr more ↦ inr (inr (omega (arith, ltb_false→le _ _ enough, ltb_false→le _ _ more)))
      ]
    ]

    too_short :
        list_lines k.entry_buff buffsize (l.nodes k.entry_list) [] ≡ out_of_room
        → (maxchars < 52 * k.num_entry) ⊎ (before.num_entry < k.num_entry)
    too_short full = elim room [
      | inl less ↦ inl less
      | inr (inl fewer) ↦ inr fewer
      | inr (inr enough) ↦ absurd (
          not_wrote (
            sym full
            ∙ list_lines-room k.entry_buff buffsize (l.nodes k.entry_list) []
                (omega (arith, v.counted, enough))))
    ]
