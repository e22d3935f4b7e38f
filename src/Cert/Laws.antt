-- ===== src/Cert/Laws.antt =====
-- cert.go: what its operations leave behind, for a file system that behaves as documented.
pub mod Again
pub mod Addresses
pub mod Signed
pub mod Ensured
use mathlib.Core.Path.{subst}
use zygote.Common.{
  ℕ, Bool, true, false, Option, none, some, List, [], ◌∷◌, Bytes, codes, Outcome, returned, exited,
  ◌>>=◌, Result, ok, err, ◌≡◌, ap, refl, sym, bind-returned, ◌∙◌, ◌≢◌,
}
use zygote.Errors.{Err}
use zygote.Paths.{join_path}
use zygote.Cert.{
  System, CertService, Stat, present, absent, stat_failed, made, ensure_dir, dir_found, in_dir,
  or_return, or_stop, encoded,
}

-- A created file and a made directory are there, and nothing that the program calls removes a file.
pub record Honest {W : Type 0} (y : System W) : Type 0 where
  pub created : (p : Bytes) (w : W) → (y.create p w).1 ≡ none → y.stat p (y.create p w).0 ≡ present
  pub dir_made :
      (p : Bytes) (w : W) → (y.mkdir_all p w).1 ≡ none → y.stat p (y.mkdir_all p w).0 ≡ present
  pub create_keeps :
      (q p : Bytes) (w : W) → y.stat q w ≡ present → y.stat q (y.create p w).0 ≡ present
  pub mkdir_all_keeps :
      (q p : Bytes) (w : W) → y.stat q w ≡ present → y.stat q (y.mkdir_all p w).0 ≡ present
  pub encode_keeps :
      (q p kind bytes : Bytes) (w : W)
      → y.stat q w ≡ present
      → y.stat q (y.encode p kind bytes w).0 ≡ present
  pub close_keeps : (q p : Bytes) (w : W) → y.stat q w ≡ present → y.stat q (y.close p w) ≡ present
  pub run_keeps :
      (q : Bytes) (argv : List Bytes) (w : W)
      → y.stat q w ≡ present
      → y.stat q (y.run argv w).0 ≡ present

-- What holds of the state if a call returns no error.
pub After : {W : Type 0} → (W → Type 0) → Outcome (W × Option Err) → Type 0
After {W = W} P o = (v : W) → o ≡ returned (v, none) → P v

module _ {W : Type 0} (y : System W) (P Q : W → Type 0) where
  pub or_stop-After :
      (next : W → Outcome (W × Option Err)) (r : W × Option Err)
      → (r.1 ≡ none → P r.0)
      → ((v : W) → P v → After Q (next v))
      → After Q (or_stop y next r)
  unfolding or_stop After
  or_stop-After next (w, none) before after v h = after w (before refl) v h
  or_stop-After next (w, some e) before after v h = cc

  pub or_return-After {ℓ} :
      {A : Type ℓ} (next : A → W → Outcome (W × Option Err)) (r : W × Result Err A)
      → P r.0
      → ((a : A) (v : W) → P v → After Q (next a v))
      → After Q (or_return y next r)
  unfolding or_return After
  or_return-After next (w, ok a) before after v h = after a w before v h
  or_return-After next (w, err e) before after v h = cc

pub bind-After {ℓ} :
    {W : Type 0} {A : Type ℓ} (Q : W → Type 0) (o : Outcome A) (next : A → Outcome (W × Option Err))
    → ((a : A) → o ≡ returned a → After Q (next a))
    → After Q (o >>= next)
unfolding After
bind-After Q o next after v h = let (a, e, e') = bind-returned o next (v, none) h in after a e v e'

pub returned-After : {W : Type 0} (Q : W → Type 0) (w : W) → Q w → After Q (returned (w, none))
unfolding After
returned-After Q w h v e = subst Q (cc) h

module _ {W : Type 0} (y : System W) (q : Bytes) where
  abbrev pub Present : W → Type 0
  Present w = y.stat q w ≡ present

  -- Writing a block to a file leaves what is there.
  pub encoded-After :
      (Q : W → Type 0) (p kind bytes : Bytes) (next : W → Outcome (W × Option Err)) (w : W)
      → Honest y
      → Present w
      → ((v : W) → Present v → After Q (next v))
      → After Q (encoded y p kind bytes next w)
  unfolding encoded
  encoded-After Q p kind bytes next w honest h after =
      or_stop-After y Present Q _ (y.encode p kind bytes w)
        (λ _. honest.encode_keeps q p kind bytes w h)
        (λ v hv. after (y.close p v) (honest.close_keeps q p v hv))

  made-Present :
      (p : Bytes) (r : W × Option Err) (s : W × Bytes)
      → Present r.0
      → made y p r ≡ returned s
      → Present s.0
  unfolding made
  made-Present p (w, none) (v, path) h e = let same : w ≡ v = cc in subst Present same h
  made-Present p (w, some x) s h e = cc

  dir_found-Present :
      (p : Bytes) (w : W) (s : Stat) (r : W × Bytes)
      → Honest y
      → Present w
      → dir_found y p w s ≡ returned r
      → Present r.0
  unfolding dir_found
  dir_found-Present p w absent r honest h e =
      made-Present p (y.mkdir_all p w) r (honest.mkdir_all_keeps q p w h) e
  dir_found-Present p w present (v, path) honest h e = let same : w ≡ v = cc in subst Present same h
  dir_found-Present p w (stat_failed x) (v, path) honest h e =
      let same : w ≡ v = cc in subst Present same h

  -- Making sure of a directory leaves what is there.
  ensure_dir-Present :
      (p : Bytes) (w : W) (r : W × Bytes)
      → Honest y
      → Present w
      → ensure_dir y p w ≡ returned r
      → Present r.0
  unfolding ensure_dir
  ensure_dir-Present p w r honest h e = dir_found-Present p w (y.stat p w) r honest h e

  pub in_dir-Present :
      (c : CertService) (file p : Bytes) (w : W) (r : W × Bytes)
      → Honest y
      → Present w
      → in_dir y c file (ensure_dir y p w) ≡ returned r
      → Present r.0
  unfolding in_dir
  in_dir-Present c file p w (v, path) honest h e =
      let (s, found, e') = bind-returned (ensure_dir y p w) _ (v, path) e in
      let same : s.0 ≡ v = cc in subst Present same (ensure_dir-Present p w s honest h found)

module _ {W : Type 0} (y : System W) (honest : Honest y) where
  settled :
      (p : Bytes) (v : W) (s : Stat)
      → s ≢ absent
      → y.stat p v ≡ s
      → ensure_dir y p v ≡ returned (v, p)
  unfolding ensure_dir dir_found
  settled p v present there e = ap (dir_found y p v) e
  settled p v (stat_failed x) there e = ap (dir_found y p v) e
  settled p v absent there e = absurd (there refl)

  made_again :
      (p : Bytes) (m : W × Option Err) (r : W × Bytes)
      → (m.1 ≡ none → y.stat p m.0 ≡ present)
      → made y p m ≡ returned r
      → ensure_dir y p r.0 ≡ returned (r.0, p)
  unfolding made
  made_again p (w, none) (v, path) there h =
      let same : w ≡ v = cc in settled p v present (λ e. cc) (ap (y.stat p) (sym same) ∙ there refl)
  made_again p (w, some x) r there h = cc

  -- A directory that was made sure of stays as it is.
  dir_again :
      (p : Bytes) (w : W) (s : Stat) (r : W × Bytes)
      → y.stat p w ≡ s
      → dir_found y p w s ≡ returned r
      → ensure_dir y p r.0 ≡ returned (r.0, p)
  unfolding dir_found
  dir_again p w present (v, path) e h =
      let same : w ≡ v = cc in settled p v present (λ e'. cc) (ap (y.stat p) (sym same) ∙ e)
  dir_again p w (stat_failed x) (v, path) e h =
      let same : w ≡ v = cc in settled p v (stat_failed x) (λ e'. cc) (ap (y.stat p) (sym same) ∙ e)
  dir_again p w absent r e h = made_again p (y.mkdir_all p w) r (honest.dir_made p w) h

  pub in_dir_again :
      (c : CertService) (file p : Bytes) (w : W) (r : W × Bytes)
      → in_dir y c file (ensure_dir y p w) ≡ returned r
      → in_dir y c file (ensure_dir y p r.0) ≡ returned (r.0, join_path (p ∷ file ∷ []))
  unfolding in_dir ensure_dir
  in_dir_again c file p w (v, path) h =
      let (s, found, e) = bind-returned (ensure_dir y p w) _ (v, path) h in
      let same : s.0 ≡ v = cc in
      ap (in_dir y c file) (
        subst (λ u. ensure_dir y p u ≡ returned (u, p)) same
          (dir_again p w (y.stat p w) s refl found))

module _ {W : Type 0} (y : System W) where
  made-path : (p : Bytes) (m : W × Option Err) (r : W × Bytes) → made y p m ≡ returned r → r.1 ≡ p
  unfolding made
  made-path p (w, none) (v, path) h = cc
  made-path p (w, some x) r h = cc

  dir_found-path :
      (p : Bytes) (w : W) (s : Stat) (r : W × Bytes) → dir_found y p w s ≡ returned r → r.1 ≡ p
  unfolding dir_found
  dir_found-path p w present (v, path) h = cc
  dir_found-path p w (stat_failed x) (v, path) h = cc
  dir_found-path p w absent r h = made-path p (y.mkdir_all p w) r h

  -- The path is that of the file in the directory.
  pub in_dir-path :
      (c : CertService) (file p : Bytes) (w : W) (r : W × Bytes)
      → in_dir y c file (ensure_dir y p w) ≡ returned r
      → r.1 ≡ join_path (p ∷ file ∷ [])
  unfolding in_dir ensure_dir
  in_dir-path c file p w (v, path) h =
      let (s, found, e) = bind-returned (ensure_dir y p w) _ (v, path) h in
      let known : s.1 ≡ p = dir_found-path p w (y.stat p w) s found in
      let joined : path ≡ join_path (s.1 ∷ file ∷ []) = cc in
      joined ∙ ap (λ d. join_path (d ∷ file ∷ [])) known
