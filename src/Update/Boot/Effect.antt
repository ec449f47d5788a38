-- ===== src/Update/Boot/Effect.antt =====
-- What the actions of update_real.sh do to the links of one service.
use chronos_updates.Common.{
  ◌≡◌, refl, ap, ◌∙◌, Bool, true, false, List, [], ◌∷◌, ◌++◌, all, both, if◌then◌else◌,
}
use chronos_updates.Update.{
  Service, Action, remove_links, start_at, start_stop_at, default_links, stop_app, kill_app,
  sleep_tenth, sleep_half, sleep_ten, show_checksum, show_busy, delete_boot, extract_update,
  copy_boot, remove_ti_logo, stop_camshutdown, stop_pc_util, flash_pmic, quit_pmic, reboot, links,
  Found, update_pmic, pmic_is_old, install,
}
use chronos_updates.Update.Boot.{
  Link, same_service, Links, started, stopped, default_runlevels, made, UpdateRcd, apply, apply_all,
}

-- The links of one service after an action that extracts nothing.
abbrev changed : Service → Action → List Link → List Link
changed t (remove_links s) l = if same_service s t then [] else l
changed t (start_at n s) l = if same_service s t then made (started n) l else l
changed t (start_stop_at n m s) l = if same_service s t then made (started n ++ stopped m) l else l
changed t (default_links s) l = if same_service s t then made default_runlevels l else l
changed t _ l = l

abbrev pub changed_all : Service → List Action → List Link → List Link
changed_all t [] l = l
changed_all t (a ∷ as_) l = changed_all t as_ (changed t a l)

abbrev extracts_nothing : Action → Bool
extracts_nothing extract_update = false
extracts_nothing _ = true

module _ (rc : UpdateRcd) (extracted : Links → Links) where
  apply_all-append :
      (xs ys : List Action) (r : Links)
      → apply_all rc extracted (xs ++ ys) r
        ≡ apply_all rc extracted ys (apply_all rc extracted xs r)
  unfolding apply_all
  apply_all-append [] ys r = refl
  apply_all-append (a ∷ xs) ys r = apply_all-append xs ys (apply rc extracted a r)

  apply-service :
      (a : Action) (r : Links) (t : Service)
      → extracts_nothing a ≡ true
      → apply rc extracted a r t ≡ changed t a (r t)
  unfolding apply
  apply-service (remove_links s) r t h = rc.remove-law s t r
  apply-service (start_at n s) r t h = rc.make-law s t (started n) r
  apply-service (start_stop_at n m s) r t h = rc.make-law s t (started n ++ stopped m) r
  apply-service (default_links s) r t h = rc.make-law s t default_runlevels r
  apply-service extract_update r t h = cc
  apply-service stop_app r t h = refl
  apply-service kill_app r t h = refl
  apply-service sleep_tenth r t h = refl
  apply-service sleep_half r t h = refl
  apply-service sleep_ten r t h = refl
  apply-service show_checksum r t h = refl
  apply-service show_busy r t h = refl
  apply-service delete_boot r t h = refl
  apply-service copy_boot r t h = refl
  apply-service remove_ti_logo r t h = refl
  apply-service stop_camshutdown r t h = refl
  apply-service stop_pc_util r t h = refl
  apply-service flash_pmic r t h = refl
  apply-service quit_pmic r t h = refl
  apply-service reboot r t h = refl

  apply_all-service :
      (as_ : List Action) (r : Links) (t : Service)
      → all extracts_nothing as_ ≡ true
      → apply_all rc extracted as_ r t ≡ changed_all t as_ (r t)
  unfolding apply_all
  apply_all-service [] r t h = refl
  apply_all-service (a ∷ as_) r t h =
      let (now, later) = both (extracts_nothing a) (all extracts_nothing as_) h in
      apply_all-service as_ (apply rc extracted a r) t later
      ∙ ap (changed_all t as_) (apply-service a r t now)

-- What comes before the links in an installation, and what comes after.
abbrev before_links : Bool → Bool → List Action
before_links busy logo =
    delete_boot
    ∷ ((if busy then show_busy ∷ [] else [])
        ++ (extract_update ∷ ((if logo then remove_ti_logo ∷ [] else []) ++ (copy_boot ∷ []))))

abbrev after_links : Bool → Bool → List Action
after_links pmic old =
    (if pmic then stop_camshutdown ∷ stop_pc_util ∷ (if old then flash_pmic ∷ [] else []) else [])
    ++ (reboot ∷ [])

install-parts :
    (f : Found)
    → install f
      ≡ before_links f.busy_bitmap f.ti_logo ++ (links ++ after_links f.pmic_file (pmic_is_old f))
unfolding install update_pmic
install-parts f = go f.busy_bitmap f.ti_logo (after_links f.pmic_file (pmic_is_old f))
  where
    go :
        (busy logo : Bool) (end : List Action)
        → delete_boot
            ∷ ((if busy then show_busy ∷ [] else [])
                ++ (extract_update
                    ∷ ((if logo then remove_ti_logo ∷ [] else []) ++ (copy_boot ∷ (links ++ end)))))
          ≡ before_links busy logo ++ (links ++ end)
    go true true end = refl
    go true false end = refl
    go false true end = refl
    go false false end = refl

after_links-changed :
    (pmic old : Bool) (t : Service) (l : List Link)
    → (all extracts_nothing (after_links pmic old) ≡ true)
      × (changed_all t (after_links pmic old) l ≡ l)
after_links-changed true true t l = (refl, refl)
after_links-changed true false t l = (refl, refl)
after_links-changed false old t l = (refl, refl)

-- An installation leaves a service with what the links make of it, whatever it had before them.
pub installed-service :
    (rc : UpdateRcd) (extracted : Links → Links) (w : List Action) (f : Found) (r : Links)
    (t : Service)
    → (before : List Link) × (apply_all rc extracted (stop_app ∷ (w ++ install f)) r t
        ≡ changed_all t links before)
unfolding apply_all
installed-service rc extracted w f r t =
    let pre = before_links f.busy_bitmap f.ti_logo in
    let post = after_links f.pmic_file (pmic_is_old f) in
    let r1 = apply_all rc extracted w (apply rc extracted stop_app r) in
    let r2 = apply_all rc extracted pre r1 in
    let r3 = apply_all rc extracted links r2 in
    let kept = after_links-changed f.pmic_file (pmic_is_old f) t (r3 t) in
    (
      r2 t,
      ap (λ q. q t)
            (apply_all-append rc extracted w (install f) (apply rc extracted stop_app r)
              ∙ ap (λ as_. apply_all rc extracted as_ r1) (install-parts f)
              ∙ apply_all-append rc extracted pre (links ++ post) r1
              ∙ apply_all-append rc extracted links post r2)
          ∙ apply_all-service rc extracted post r3 t kept.0
          ∙ kept.1
          ∙ apply_all-service rc extracted links r2 t refl,
    )
