-- ===== src/Tables/Close/Laws.antt =====
-- What closing leaves behind.
use zygote.Common.{
  none, List, [], ◌∷◌, ◌≡◌, ◌≢◌, refl, ap, ◌∙◌, inl, inr, ℤ, arith, Option-cases, if◌then◌else◌,
  eqb_ℤ, eqb_ℤ_iff,
}
use zygote.Common.IntMap.{IntMap, lookup, delete, lookup-delete, eqb_ℤ_refl}
use zygote.Errors.{Err}
use zygote.Tables.{Driver, Handle, MultiDbConnector, State}
use zygote.Tables.Connect.{ConnectionType, read_conn, write_conn, other_conn, conns}
use zygote.Tables.Close.{forget, close_half, close, close_entries, close_all, note}

lookup-forget :
    (t : ConnectionType) (i j : ℤ) (m : MultiDbConnector)
    → lookup j (conns t (forget t i m)) ≡ (if eqb_ℤ i j then none else lookup j (conns t m))
unfolding conns forget lookup
lookup-forget read_conn i j m = lookup-delete i j m.read_conns
lookup-forget write_conn i j m = lookup-delete i j m.write_conns
lookup-forget (other_conn name) i j m = ground arith

conns-forget :
    (t u : ConnectionType) (i : ℤ) (m : MultiDbConnector)
    → u ≢ t
    → conns u (forget t i m) ≡ conns u m
unfolding conns forget
conns-forget read_conn read_conn i m n = absurd (n refl)
conns-forget read_conn write_conn i m n = refl
conns-forget read_conn (other_conn name) i m n = refl
conns-forget write_conn read_conn i m n = refl
conns-forget write_conn write_conn i m n = absurd (n refl)
conns-forget write_conn (other_conn name) i m n = refl
conns-forget (other_conn name) u i m n = refl

module _ {W : Type 0} (d : Driver W) where
  -- One half of `Close` removes one entry.
  close_half-lookup :
      (t : ConnectionType) (i j : ℤ) (p : State W × List Err)
      → lookup j (conns t (close_half d t i p).0.connector)
        ≡ (if eqb_ℤ i j then none else lookup j (conns t p.0.connector))
  unfolding close_half
  close_half-lookup t i j (s, errs) = elim (Option-cases (lookup i (conns t s.connector))) [
    | inl gone ↦ rw (close_half, gone) (ground (arith, eqb_ℤ_iff i j, gone))
    | inr (h, here) ↦ rw (close_half, here) (lookup-forget t i j s.connector)
  ]

  close_half-conns :
      (t u : ConnectionType) (i : ℤ) (p : State W × List Err)
      → u ≢ t
      → conns u (close_half d t i p).0.connector ≡ conns u p.0.connector
  unfolding close_half
  close_half-conns t u i (s, errs) n = elim (Option-cases (lookup i (conns t s.connector))) [
    | inl gone ↦ rw (close_half, gone)
    | inr (h, here) ↦ rw (close_half, here) (conns-forget t u i s.connector n)
  ]

  -- After `Close` no connection of the shard is left, whatever its two closes returned, and every
  -- other shard has the connections that it had.
  pub close-lookup :
      (i j : ℤ) (s : State W)
      → let m = (close d i s).0.connector in
        (lookup j m.read_conns ≡ (if eqb_ℤ i j then none else lookup j s.connector.read_conns))
        × (lookup j m.write_conns ≡ (if eqb_ℤ i j then none else lookup j s.connector.write_conns))
  unfolding close conns
  close-lookup i j s =
      let q = close_half d read_conn i (s, []) in
      (
        ap (lookup j) (close_half-conns write_conn read_conn i q (λ e. cc))
            ∙ close_half-lookup read_conn i j (s, []),
        close_half-lookup write_conn i j q
            ∙ ap (λ h. if eqb_ℤ i j then none else lookup j h)
                (close_half-conns read_conn write_conn i (s, []) (λ e. cc)),
      )

  -- The entries of a list of connections, taken out of a map one after the other.
  remove_keys : IntMap Handle → IntMap Handle → IntMap Handle
  remove_keys [] m = m
  remove_keys ((i, h) ∷ rest) m = remove_keys rest (delete i m)

  delete_comm : (i j : ℤ) (m : IntMap Handle) → delete i (delete j m) ≡ delete j (delete i m)
  unfolding delete
  delete_comm i j [] = refl
  delete_comm i j ((k, h) ∷ m) = ground (arith, delete_comm i j m)

  remove_keys-delete :
      (i : ℤ) (l m : IntMap Handle) → remove_keys l (delete i m) ≡ delete i (remove_keys l m)
  unfolding remove_keys
  remove_keys-delete i [] m = refl
  remove_keys-delete i ((j, h) ∷ l) m =
      ap (remove_keys l) (delete_comm j i m) ∙ remove_keys-delete i l (delete j m)

  remove_keys_self : (l : IntMap Handle) → remove_keys l l ≡ []
  unfolding remove_keys delete
  remove_keys_self [] = refl
  remove_keys_self ((i, h) ∷ l) =
      let first : delete i ((i, h) ∷ l) ≡ delete i l = rw (delete, eqb_ℤ_refl i) in
      ap (remove_keys l) first ∙ remove_keys-delete i l l ∙ ap (delete i) (remove_keys_self l)

  pub conns-close_entries :
      (t u : ConnectionType) (l : IntMap Handle) (p : State W × List Err)
      → u ≢ t
      → conns u (close_entries d t l p).0.connector ≡ conns u p.0.connector
  unfolding close_entries
  conns-close_entries t u [] (s, errs) n = refl
  conns-close_entries t u ((i, h) ∷ l) (s, errs) n =
      let r = d.close_db h s.world in
      conns-close_entries t u l
        (record { connector = forget t i s.connector; world = r.0 }, note d t i r.1 errs) n
      ∙ conns-forget t u i s.connector n

  read_conns-close_entries :
      (l : IntMap Handle) (p : State W × List Err)
      → (close_entries d read_conn l p).0.connector.read_conns
        ≡ remove_keys l p.0.connector.read_conns
  unfolding close_entries remove_keys
  read_conns-close_entries [] (s, errs) = refl
  read_conns-close_entries ((i, h) ∷ l) (s, errs) =
      let r = d.close_db h s.world in
      read_conns-close_entries l (
        record { connector = forget read_conn i s.connector; world = r.0 },
        note d read_conn i r.1 errs,
      )

  write_conns-close_entries :
      (l : IntMap Handle) (p : State W × List Err)
      → (close_entries d write_conn l p).0.connector.write_conns
        ≡ remove_keys l p.0.connector.write_conns
  unfolding close_entries remove_keys
  write_conns-close_entries [] (s, errs) = refl
  write_conns-close_entries ((i, h) ∷ l) (s, errs) =
      let r = d.close_db h s.world in
      write_conns-close_entries l (
        record { connector = forget write_conn i s.connector; world = r.0 },
        note d write_conn i r.1 errs,
      )

  configs-forget :
      (t : ConnectionType) (i : ℤ) (m : MultiDbConnector) → (forget t i m).configs ≡ m.configs
  unfolding forget
  configs-forget read_conn i m = refl
  configs-forget _ i m = refl

  configs-close_entries :
      (t : ConnectionType) (l : IntMap Handle) (p : State W × List Err)
      → (close_entries d t l p).0.connector.configs ≡ p.0.connector.configs
  unfolding close_entries
  configs-close_entries t [] (s, errs) = refl
  configs-close_entries t ((i, h) ∷ l) (s, errs) =
      let r = d.close_db h s.world in
      configs-close_entries t l
        (record { connector = forget t i s.connector; world = r.0 }, note d t i r.1 errs)
      ∙ configs-forget t i s.connector

  -- `CloseAll` leaves no connection of either type, also where closes fail, and keeps the
  -- configurations, so that the shards can be connected to again.
  pub close_all_empties :
      (s : State W)
      → let m = (close_all d s).0.connector in
        (m.read_conns ≡ []) × (m.write_conns ≡ []) × (m.configs ≡ s.connector.configs)
  unfolding close_all conns
  close_all_empties s =
      let p : State W × List Err = (s, []) in
      let q = close_entries d read_conn s.connector.read_conns p in
      (
        conns-close_entries write_conn read_conn q.0.connector.write_conns q (λ e. cc)
            ∙ read_conns-close_entries s.connector.read_conns p
            ∙ remove_keys_self s.connector.read_conns,
        write_conns-close_entries q.0.connector.write_conns q
            ∙ remove_keys_self q.0.connector.write_conns,
        configs-close_entries write_conn q.0.connector.write_conns q
            ∙ configs-close_entries read_conn s.connector.read_conns p,
      )
