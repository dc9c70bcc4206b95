-- ===== src/Options/Last.antt =====
-- Which of the values of an option counts.
use c_faas_emulator.Common.{
  true, false, Option, none, some, List, [], ◌∷◌, ◌++◌, ◌≡◌, refl, ◌∙◌, Bool-cases, inl, inr,
  if◌then◌else◌, arith, All,
}
use c_faas_emulator.Common.Name.{Name, str_eq, str_eq_refl}
use c_faas_emulator.Common.Outcome.{
  ok, fault, Ensures, Ensures-bind, Ensures-mono, ensured, Returns, Returns-bind,
}
use c_faas_emulator.Common.Text.{atoi}
use c_faas_emulator.Options.{
  Options, Setting, memory, disk, threads, threshold, cold, write_threads, read_threads,
  setting_name, input_name, takes_number, read_param, first, read_params, read_options, defaults,
}

abbrev pub NotSet : Setting → List Name → Type 0
NotSet k = All λ p. str_eq p (setting_name k) ≡ false

read_param-other :
    (k : Setting) (p : Name) (following : Option Name) (o : Options)
    → str_eq p (setting_name k) ≡ false
    → Ensures (λ o'. o'.settings k ≡ o.settings k) (read_param p following o)
unfolding read_param
read_param-other k p none o h = ground (arith, h)
read_param-other k p (some v) o h = ground (arith, h)

read_params-other :
    (k : Setting) (ps : List Name) (o : Options)
    → NotSet k ps
    → Ensures (λ o'. o'.settings k ≡ o.settings k) (read_params ps o)
unfolding read_params
read_params-other k [] o h = refl
read_params-other k (p ∷ ps) o h = Ensures-bind _ (read_param p (first ps) o) _ λ o' q.
    let kept = ensured _ _ o' (read_param-other k p (first ps) o h.0) q in
    Ensures-mono _ _ (read_params ps o') (λ o'' e. e ∙ kept) (read_params-other k ps o' h.1)

setting_name-takes_number : (k : Setting) → takes_number (setting_name k) ≡ true
unfolding takes_number str_eq
setting_name-takes_number memory = refl
setting_name-takes_number disk = refl
setting_name-takes_number threads = refl
setting_name-takes_number threshold = refl
setting_name-takes_number cold = refl
setting_name-takes_number write_threads = refl
setting_name-takes_number read_threads = refl

setting_name-input : (k : Setting) → str_eq (setting_name k) input_name ≡ false
unfolding str_eq
setting_name-input memory = refl
setting_name-input disk = refl
setting_name-input threads = refl
setting_name-input threshold = refl
setting_name-input cold = refl
setting_name-input write_threads = refl
setting_name-input read_threads = refl

read_param-set :
    (k : Setting) (v : Name) (o : Options)
    → Ensures (λ o'. o'.settings k ≡ atoi v) (read_param (setting_name k) (some v) o)
unfolding read_param
read_param-set k v o =
    rw (setting_name-input k, setting_name-takes_number k, str_eq_refl (setting_name k)) refl

read_params-last :
    (k : Setting) (before : List Name) (v : Name) (after : List Name) (o : Options)
    → NotSet k (v ∷ after)
    → Ensures (λ o'. o'.settings k ≡ atoi v) (read_params (before ++ setting_name k ∷ v ∷ after) o)
unfolding read_params
read_params-last k [] v after o h =
    Ensures-bind _ (read_param (setting_name k) (some v) o) _ λ o' q.
      let put = ensured _ _ o' (read_param-set k v o) q in
      Ensures-mono _ _ (read_params (v ∷ after) o') (λ o'' e. e ∙ put)
        (read_params-other k (v ∷ after) o' h)
read_params-last k (p ∷ before) v after o h =
    Ensures-bind _ (read_param p (first (before ++ setting_name k ∷ v ∷ after)) o) _
      λ o' q. read_params-last k before v after o' h

-- If the parameters can be read, an option with a number has the last value that it is given,
-- whatever stands before, and whatever other options stand behind.
pub read_options-last :
    (k : Setting) (before : List Name) (v : Name) (after : List Name) (fresh : Options)
    → NotSet k (v ∷ after)
    → Ensures
        (λ o. o.settings k ≡ atoi v)
        (read_options (before ++ setting_name k ∷ v ∷ after) fresh)
unfolding read_options read_params
read_options-last k before v after fresh h = read_params-last k before v after (defaults fresh) h

read_param-Returns :
    (p : Name) (following : Option Name) (o : Options)
    → (following ≡ none → takes_number p ≡ false)
    → Returns (read_param p following o)
unfolding read_param
read_param-Returns p following o h = elim (Bool-cases (str_eq p input_name)) [
  | inl input ↦ rw input (_, refl)
  | inr other ↦ rw other (by_kind following _ _ h)
]
  where
    by_kind :
        (next : Option Name) (set : Name → Options) (plain : Options)
        → (next ≡ none → takes_number p ≡ false)
        → Returns
            (if takes_number p then elim next [ none ↦ fault | some v ↦ ok (set v) ] else ok plain)
    by_kind none set plain n = rw (n refl) (_, refl)
    by_kind (some v) set plain n = elim (Bool-cases (takes_number p)) [
      | inl t ↦ rw t (_, refl)
      | inr t ↦ rw t (_, refl)
    ]

-- The parameters can be read unless the last of them is an option with a number.
pub read_options-Returns :
    (ps : List Name) (last : Name) (fresh : Options)
    → takes_number last ≡ false
    → Returns (read_options (ps ++ last ∷ []) fresh)
unfolding read_options read_params
read_options-Returns ps last fresh h = from ps (defaults fresh)
  where
    from : (qs : List Name) (o : Options) → Returns (read_params (qs ++ last ∷ []) o)
    from [] o =
        Returns-bind (read_param last none o) _ (read_param-Returns last none o (λ e. h))
          λ o' e. (o', refl)
    from (q ∷ []) o =
        Returns-bind (read_param q (some last) o) _ (read_param-Returns q (some last) o (λ e. cc))
          λ o' e. from [] o'
    from (q ∷ r ∷ qs) o =
        Returns-bind (read_param q (some r) o) _ (read_param-Returns q (some r) o (λ e. cc))
          λ o' e. from (r ∷ qs) o'
