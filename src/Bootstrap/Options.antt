-- ===== src/Bootstrap/Options.antt =====
-- The options of scripts/chronos-debootstrap.sh, written as words.
use chronos_updates.Common.{
  ℕ, ◌≡◌, refl, ap, ◌∙◌, false, ◌==◌, none, some, List, [], ◌∷◌, ◌++◌, append_assoc, codes,
}
use chronos_updates.Bootstrap.{
  Word, Settings, Flag, suite_flag, sysroot_flag, bootpart_flag, flag_of, set, choose_gui,
  read_letters, letters_of, help, chosen, get_options, boot_dir, rootfs_dir, mounts,
}

-- An option as a user gives it: `-g`, `-s SUITE`, or `-sSUITE`.
pub data Given : Type 0 where
  gui : Given
  apart : Flag → Word → Given
  joined : Flag → ℕ → Word → Given

abbrev letter : Flag → ℕ
letter suite_flag = b's'
letter sysroot_flag = b'd'
letter bootpart_flag = b'b'

abbrev write_one : Given → List Word
write_one gui = codes "-g" ∷ []
write_one (apart f w) = (b'-' ∷ letter f ∷ []) ∷ w ∷ []
write_one (joined f c w) = (b'-' ∷ letter f ∷ c ∷ w) ∷ []

abbrev pub write_options : List Given → List Word
write_options [] = []
write_options (g ∷ gs) = write_one g ++ write_options gs

abbrev apply_one : Given → Settings → Settings
apply_one gui s = choose_gui s
apply_one (apart f w) s = set f w s
apply_one (joined f c w) s = set f (c ∷ w) s

abbrev pub apply_options : List Given → Settings → Settings
apply_options [] s = s
apply_options (g ∷ gs) s = apply_options gs (apply_one g s)

get_options-one :
    (g : Given) (ws : List Word) (s : Settings)
    → get_options none (write_one g ++ ws) s ≡ get_options none ws (apply_one g s)
unfolding get_options letters_of read_letters flag_of
get_options-one gui ws s = refl
get_options-one (apart suite_flag w) ws s = refl
get_options-one (apart sysroot_flag w) ws s = refl
get_options-one (apart bootpart_flag w) ws s = refl
get_options-one (joined suite_flag c w) ws s = refl
get_options-one (joined sysroot_flag c w) ws s = refl
get_options-one (joined bootpart_flag c w) ws s = refl

-- Options that are written out are read back, whatever words follow.
get_options-written :
    (gs : List Given) (ws : List Word) (s : Settings)
    → get_options none (write_options gs ++ ws) s ≡ get_options none ws (apply_options gs s)
get_options-written [] ws s = refl
get_options-written (g ∷ gs) ws s =
    ap (λ words. get_options none words s) (append_assoc (write_one g) (write_options gs) ws)
    ∙ get_options-one g (write_options gs ++ ws) s
    ∙ get_options-written gs ws (apply_one g s)

-- The directories of chronos-mkimage.sh, whatever the user's are.
abbrev pub at_mounts : Settings → Settings
at_mounts s = record s { sysroot = rootfs_dir; bootpart = boot_dir }

-- The words of any options, each argument in the word of its option or in the next one, with the
-- words of chronos-mkimage.sh behind them, are read as these options with the two mounted
-- directories in place of any others.
pub get_options-mounts :
    (gs : List Given) (s : Settings)
    → get_options none (write_options gs ++ mounts) s ≡ chosen (at_mounts (apply_options gs s))
unfolding get_options letters_of read_letters flag_of set
get_options-mounts gs s = get_options-written gs mounts s ∙ refl

-- `-h`, `-?` or an option that there is not, behind options that there are.
pub get_options-refused :
    (gs : List Given) (w : Word) (ws : List Word) (s : Settings) {c : ℕ} {cs : List ℕ}
    → letters_of w ≡ some (c ∷ cs)
    → (c == b'g') ≡ false
    → flag_of c ≡ none
    → get_options none (write_options gs ++ (w ∷ ws)) s ≡ help
unfolding get_options read_letters
get_options-refused gs w ws s {c} {cs} e g k =
    get_options-written gs (w ∷ ws) s ∙ rw (e, g, k, get_options, read_letters) refl

-- The first word that is no option, where one is expected, ends them.
pub get_options-ended :
    (gs : List Given) (w : Word) (ws : List Word) (s : Settings)
    → letters_of w ≡ none
    → get_options none (write_options gs ++ (w ∷ ws)) s ≡ chosen (apply_options gs s)
unfolding get_options
get_options-ended gs w ws s e = get_options-written gs (w ∷ ws) s ∙ rw (e, get_options) refl
