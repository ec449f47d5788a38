-- ===== src/Update/Boot/Order.antt =====
-- Which init scripts start when the camera boots after update_real.sh, and in which order.
use chronos_updates.Common.{
  ℕ, ◌<◌, ◌≡◌, ◌≢◌, refl, sym, ap, ap₂, map, ◌∙◌, Bool, true, false, not, some, List, [], ◌∷◌, ◌++◌,
  all, both, not-true, ◌>>=◌,
}
use chronos_updates.Update.{
  Service, telnetd, thttpd, banner, psplash, shutdown_splash, matrix_gui_e, gplv3_notice, udev,
  load_hd_firmware, vidorder, camera, networking, mountnfs, bootmisc, alsa_state, udhcpcd, Action,
  stop_app, links, Found, bad_sums, install, update,
}
use chronos_updates.Update.Outcome.{EndsAt, splash-runs}
use chronos_updates.Update.Boot.{
  Link, same_service, Links, started, stopped, default_runlevels, made, UpdateRcd, apply_all,
  boot_numbers, insert_all, sorted_starts, boot_sequence, boot_services,
}
use chronos_updates.Update.Boot.Effect.{changed_all, installed-service}

-- What a service is left with: those that the script sets up have one start, in the run level of the
-- boot, and the camera's program a stop in 0 and 6; those that it removes have nothing.
abbrev pub listed : Service → List Link
listed udev = started 3
listed load_hd_firmware = started 40
listed vidorder = started 41
listed camera = started 42 ++ stopped 0
listed networking = started 60
listed mountnfs = started 65
listed bootmisc = started 70
listed alsa_state = started 80
listed _ = []

links-listed :
    (t : Service) (l : List Link)
    → same_service t udhcpcd ≡ false
    → changed_all t links l ≡ listed t
links-listed telnetd l h = refl
links-listed thttpd l h = refl
links-listed banner l h = refl
links-listed psplash l h = refl
links-listed shutdown_splash l h = refl
links-listed matrix_gui_e l h = refl
links-listed gplv3_notice l h = refl
links-listed udev l h = refl
links-listed load_hd_firmware l h = refl
links-listed vidorder l h = refl
links-listed camera l h = refl
links-listed networking l h = refl
links-listed mountnfs l h = refl
links-listed bootmisc l h = refl
links-listed alsa_state l h = refl
links-listed udhcpcd l h = cc

made-some : (l : List Link) → made default_runlevels l ≢ []
made-some [] e = cc
made-some (k ∷ l) e = cc

abbrev not_dhcp : Service → Bool
not_dhcp t = not (same_service t udhcpcd)

-- The order of the boot depends on the links of the services only.
sorted_starts-same :
    (r q : Links) (ts : List Service)
    → ((t : Service) → same_service t udhcpcd ≡ false → r t ≡ q t)
    → all not_dhcp ts ≡ true
    → sorted_starts r ts ≡ sorted_starts q ts
sorted_starts-same r q [] h k = refl
sorted_starts-same r q (t ∷ ts) h k =
    let (first, rest) = both (not_dhcp t) (all not_dhcp ts) k in
    ap₂ (λ l ys. insert_all (boot_numbers l) t ys) (h t (not-true (same_service t udhcpcd) first))
      (sorted_starts-same r q ts h rest)

-- Over any update-rc.d that does what its manual says, if the sums are good, and camApp is listed
-- the first `m` times and then not, then with more than `m` rounds of fuel the script comes to its
-- end, and whatever links the services had, and the archive holds, it leaves each service but
-- udhcpcd so: the boot starts udev at 3, the firmware at 40, vidorder at 41, camera at 42,
-- networking at 60, mountnfs at 65, bootmisc at 70 and alsa-state at 80, and none of these has
-- another link, but camera, which is stopped at 0 in run levels 0 and 6; telnetd, thttpd, the three
-- splash screens, matrix-gui-e and gplv3-notice have no link. So the boot, which goes by these
-- numbers, starts the eight in this order. And udhcpcd has a link.
pub update-boots :
    (rc : UpdateRcd) (extracted : Links → Links) (f : Found) (m fuel : ℕ) (r : Links) (t : Service)
    → bad_sums f ≡ false
    → m < fuel
    → EndsAt f.app_listed m
    → same_service t udhcpcd ≡ false
    → (trace : List Action) × (update f fuel ≡ some trace)
      × (apply_all rc extracted trace r t ≡ listed t)
      × (boot_sequence (apply_all rc extracted trace r) boot_services
          ≡ udev ∷ load_hd_firmware ∷ vidorder ∷ camera ∷ networking ∷ mountnfs ∷ bootmisc
            ∷ alsa_state ∷ [])
      × (apply_all rc extracted trace r udhcpcd ≢ [])
unfolding update
update-boots rc extracted f m fuel r t good h ends other =
    let (w, runs, none_of_them) = splash-runs f m fuel h ends in
    let after : Links = apply_all rc extracted (stop_app ∷ (w ++ install f)) r in
    let as_listed : (k : Service) → same_service k udhcpcd ≡ false → after k ≡ listed k = λ k apart.
      let (before, done) = installed-service rc extracted w f r k in
      done ∙ links-listed k before apart in
    let (dhcp, dhcp_done) = installed-service rc extracted w f r udhcpcd in
    (
      stop_app ∷ (w ++ install f),
      rw (good, runs, ◌>>=◌) refl,
      as_listed t other,
      ap (map (λ (x : ℕ × Service). x.1))
          (sorted_starts-same after listed boot_services as_listed refl),
      (λ e. made-some dhcp (sym dhcp_done ∙ e)),
    )
