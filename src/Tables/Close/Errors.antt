-- ===== src/Tables/Close/Errors.antt =====
-- When closing everything reports an error.
use mathlib.Core.Path.{subst₂}
use mathlib.Core.List.{concat-ne-nil}
use zygote.Common.{codes, ℕ, Option, none, some, List, [], ◌∷◌, ◌≡◌, ◌↔◌, refl, sym, ℤ}
use zygote.Common.IntMap.{IntMap}
use zygote.Errors.{Err}
use zygote.Tables.{Driver, Handle, State}
use zygote.Tables.Connect.{ConnectionType, read_conn, write_conn, conns}
use zygote.Tables.Close.{forget, close_entries, close_all, close_error, note, report}
use zygote.Tables.Close.Laws.{conns-close_entries}

module _ {W : Type 0} (d : Driver W) where
  -- Every close of the list returns no error, each in the state that the one before it left.
  abbrev pub AllClose : IntMap Handle → W → Type 0
  AllClose [] w = Unit {0}
  AllClose ((i, h) ∷ l) w = ((d.close_db h w).1 ≡ none) × AllClose l (d.close_db h w).0

  -- The state that the closes of a list leave.
  abbrev pub closed : IntMap Handle → W → W
  closed [] w = w
  closed ((i, h) ∷ l) w = closed l (d.close_db h w).0

  closed-close_entries :
      (t : ConnectionType) (l : IntMap Handle) (p : State W × List Err)
      → (close_entries d t l p).0.world ≡ closed l p.0.world
  unfolding close_entries
  closed-close_entries t [] (s, errs) = refl
  closed-close_entries t ((i, h) ∷ l) (s, errs) =
      let r = d.close_db h s.world in
      closed-close_entries t l
        (record { connector = forget t i s.connector; world = r.0 }, note d t i r.1 errs)

  note-nil :
      (t : ConnectionType) (i : ℤ) (r : Option Err) (errs : List Err)
      → note d t i r errs ≡ []
      → (errs ≡ []) × (r ≡ none)
  unfolding note
  note-nil t i none errs e = (e, refl)
  note-nil t i (some x) errs e = absurd (concat-ne-nil (close_error d t i x) errs e)

  note_ok :
      (t : ConnectionType) (i : ℤ) (r : Option Err) (errs : List Err)
      → errs ≡ []
      → r ≡ none
      → note d t i r errs ≡ []
  unfolding note
  note_ok t i none errs e h = e
  note_ok t i (some x) errs e h = cc

  close_entries-AllClose :
      (t : ConnectionType) (l : IntMap Handle) (p : State W × List Err)
      → ((close_entries d t l p).1 ≡ []) ↔ ((p.1 ≡ []) × AllClose l p.0.world)
  unfolding close_entries
  close_entries-AllClose t [] (s, errs) = (λ e. (e, tt), λ h. h.0)
  close_entries-AllClose t ((i, h) ∷ l) (s, errs) =
      let r = d.close_db h s.world in
      let (to, from) =
        close_entries-AllClose t l
          (record { connector = forget t i s.connector; world = r.0 }, note d t i r.1 errs) in
      (
        λ e. let (a, b) = to e in let (c, n) = note-nil t i r.1 errs a in (c, (n, b)),
        λ g. from (note_ok t i r.1 errs g.0 g.1.0, g.1.1),
      )

  report-none : (prefix : List ℕ) (errs : List Err) → (report d prefix errs ≡ none) ↔ (errs ≡ [])
  unfolding report
  report-none prefix [] = (λ e. refl, λ e. refl)
  report-none prefix (x ∷ errs) = (λ e. cc, λ e. cc)

  -- `CloseAll` reports no error exactly when every close, first of the read connections and then of
  -- the write connections, returns none.
  pub close_all-ok :
      (s : State W)
      → let m = s.connector in
        ((close_all d s).1 ≡ none)
        ↔ (AllClose m.read_conns s.world × AllClose m.write_conns (closed m.read_conns s.world))
  unfolding close_all conns
  close_all-ok s =
      let reads = s.connector.read_conns in
      let p : State W × List Err = (s, []) in
      let q = close_entries d read_conn reads p in
      let same : q.0.connector.write_conns ≡ s.connector.write_conns =
        conns-close_entries d read_conn write_conn reads p (λ e. cc) in
      let left : q.0.world ≡ closed reads s.world = closed-close_entries read_conn reads p in
      let first = close_entries-AllClose read_conn reads p in
      let second = close_entries-AllClose write_conn q.0.connector.write_conns q in
      let last =
        report-none (codes "errors closing connections: ")
          (close_entries d write_conn q.0.connector.write_conns q).1 in
      (
        λ e. let (a, b) = second.0 (last.0 e) in ((first.0 a).1, subst₂ AllClose same left b),
        λ g. last.1 (second.1 (first.1 (refl, g.0), subst₂ AllClose (sym same) (sym left) g.1)),
      )
