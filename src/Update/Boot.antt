-- ===== src/Update/Boot.antt =====
-- The links that update_real.sh leaves the init scripts with, over update-rc.d as a parameter.
pub mod Effect
pub mod Order
use chronos_updates.Common.{ℕ, ◌≡◌, Bool, List, [], ◌∷◌, ◌++◌, ◌==◌, leb, map, if◌then◌else◌}
use chronos_updates.Update.{
  Service, telnetd, thttpd, banner, psplash, shutdown_splash, matrix_gui_e, gplv3_notice, udev,
  load_hd_firmware, vidorder, camera, networking, mountnfs, bootmisc, alsa_state, udhcpcd, Action,
  remove_links, start_at, start_stop_at, default_links,
}

-- A run level, and in it a link that starts or stops a service at its number.
pub data Level : Type 0 where
  boot_level : Level
  level : ℕ → Level

pub data Link : Type 0 where
  start_link stop_link : ℕ → Level → Link

-- The number of a service among the init scripts.
abbrev index : Service → ℕ
index telnetd = 0
index thttpd = 1
index banner = 2
index psplash = 3
index shutdown_splash = 4
index matrix_gui_e = 5
index gplv3_notice = 6
index udev = 7
index load_hd_firmware = 8
index vidorder = 9
index camera = 10
index networking = 11
index mountnfs = 12
index bootmisc = 13
index alsa_state = 14
index udhcpcd = 15

abbrev pub same_service : Service → Service → Bool
same_service s t = index s == index t

abbrev pub Links : Type 0
Links = Service → List Link

-- `start NUMBER S .`, `stop NUMBER 0 6 .` and `defaults`.
abbrev pub started : ℕ → List Link
started n = start_link n boot_level ∷ []

abbrev pub stopped : ℕ → List Link
stopped n = stop_link n (level 0) ∷ stop_link n (level 6) ∷ []

abbrev pub default_runlevels : List Link
default_runlevels =
    map (λ l. start_link 20 (level l)) (2 ∷ 3 ∷ 4 ∷ 5 ∷ [])
    ++ map (λ l. stop_link 20 (level l)) (0 ∷ 1 ∷ 6 ∷ [])

-- What `update-rc.d` does to the links that a service has: it removes them, and it makes new ones
-- only where there are none.
abbrev pub made : List Link → List Link → List Link
made new [] = new
made new (l ∷ old) = l ∷ old

-- What is relied on of update-rc.d: the links of a service change as its manual says, and those of
-- the others do not.
pub record UpdateRcd : Type 0 where
  pub remove : Service → Links → Links
  pub make : Service → List Link → Links → Links
  pub remove-law :
      (s t : Service) (r : Links) → remove s r t ≡ (if same_service s t then [] else r t)
  pub make-law :
      (s t : Service) (new : List Link) (r : Links)
      → make s new r t ≡ (if same_service s t then made new (r t) else r t)

-- What an action of the script does to the links; the archive of the update may hold links.
pub apply : UpdateRcd → (Links → Links) → Action → Links → Links
apply rc extracted (remove_links s) r = rc.remove s r
apply rc extracted (start_at n s) r = rc.make s (started n) r
apply rc extracted (start_stop_at n m s) r = rc.make s (started n ++ stopped m) r
apply rc extracted (default_links s) r = rc.make s default_runlevels r
apply rc extracted Action.extract_update r = extracted r
apply rc extracted _ r = r

pub apply_all : UpdateRcd → (Links → Links) → List Action → Links → Links
apply_all rc extracted [] r = r
apply_all rc extracted (a ∷ as_) r = apply_all rc extracted as_ (apply rc extracted a r)

-- The numbers that a service is started at when the system boots.
abbrev pub boot_numbers : List Link → List ℕ
boot_numbers [] = []
boot_numbers (start_link n boot_level ∷ ls) = n ∷ boot_numbers ls
boot_numbers (_ ∷ ls) = boot_numbers ls

abbrev insert : ℕ × Service → List (ℕ × Service) → List (ℕ × Service)
insert x [] = x ∷ []
insert x (y ∷ ys) = let rest = insert x ys in if leb x.0 y.0 then x ∷ y ∷ ys else y ∷ rest

abbrev pub insert_all : List ℕ → Service → List (ℕ × Service) → List (ℕ × Service)
insert_all [] t ys = ys
insert_all (n ∷ ns) t ys = insert (n, t) (insert_all ns t ys)

abbrev pub sorted_starts : Links → List Service → List (ℕ × Service)
sorted_starts r [] = []
sorted_starts r (t ∷ ts) = insert_all (boot_numbers (r t)) t (sorted_starts r ts)

-- The services that the boot starts, in the order of their numbers, of a list of services.
abbrev pub boot_sequence : Links → List Service → List Service
boot_sequence r ts = map (λ (x : ℕ × Service). x.1) (sorted_starts r ts)

-- All but udhcpcd, which the run levels after the boot start.
abbrev pub boot_services : List Service
boot_services =
    telnetd ∷ thttpd ∷ banner ∷ psplash ∷ shutdown_splash ∷ matrix_gui_e ∷ gplv3_notice ∷ udev
    ∷ load_hd_firmware ∷ vidorder ∷ camera ∷ networking ∷ mountnfs ∷ bootmisc ∷ alsa_state ∷ []
