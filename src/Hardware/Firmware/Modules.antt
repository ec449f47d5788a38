-- ===== src/Hardware/Firmware/Modules.antt =====
-- What load-hd-firmware.sh loads, and what its stop takes away again.
use chronos_updates.Common.{
  ℕ, zero, suc, ◌<◌, ◌≡◌, refl, ap, ◌∙◌, Bool, true, false, not, ◌&&◌, ◌||◌, some, List, [], ◌∷◌,
  ◌++◌, ◌==◌, any, replicate, Bool-cases, inl, inr,
}
use chronos_updates.Hardware.Video.{
  Module, syslink, vpss, ti81xxfb, ti81xxhdmi, ti81xxvo, ti81xxvin, modprobe, rmmod,
}
use chronos_updates.Hardware.Firmware.{
  Engine, hdvicp2, hdvpss, Action, video, start_firmware, stop_firmware, sleep_half, fbset, start,
  stop, lcd_writes, before_ipc, firmwares, stopping, load_hd_firmware,
}
use chronos_updates.Hardware.Firmware.Waits.{FirstAt, started_trace, start-ends}

-- The modules that are loaded, and the engines that run.
pub record Machine : Type 0 where
  pub loaded : Module → Bool
  pub running : Engine → Bool

abbrev rank : Module → ℕ
rank syslink = 0
rank vpss = 1
rank ti81xxfb = 2
rank ti81xxhdmi = 3
rank ti81xxvo = 4
rank ti81xxvin = 5

abbrev same_module : Module → Module → Bool
same_module m k = rank m == rank k

abbrev same_engine : Engine → Engine → Bool
same_engine hdvicp2 hdvicp2 = true
same_engine hdvpss hdvpss = true
same_engine _ _ = false

-- rootfs/lib/modules/2.6.37+/modules.dep: a module needs another to be loaded. These are the modules
-- in kernel/drivers/video,
abbrev display_needs : Module → Module → Bool
display_needs ti81xxfb vpss = true
display_needs ti81xxhdmi vpss = true
display_needs _ _ = false

-- and these those in kernel/drivers/media.
abbrev media_needs : Module → Module → Bool
media_needs ti81xxvo vpss = true
media_needs ti81xxvin vpss = true
media_needs _ _ = false

abbrev needs : Module → Module → Bool
needs m k = display_needs m k || media_needs m k

abbrev in_use : Machine → Module → Bool
in_use s m =
    any (λ k. needs k m && s.loaded k)
      (syslink ∷ vpss ∷ ti81xxfb ∷ ti81xxhdmi ∷ ti81xxvo ∷ ti81xxvin ∷ [])

-- modprobe loads what a module needs too; rmmod refuses to take away a module that another needs. That a
-- program has a module's device open, so that rmmod refuses too, is left out.
abbrev act : Action → Machine → Machine
act (video (modprobe m parameters)) s = record s {
  loaded = λ k. (same_module m k || needs m k) || s.loaded k;
}
act (video (rmmod m)) s = record s {
  loaded = λ k. s.loaded k && (in_use s m || not (same_module m k));
}
act (start_firmware e) s = record s { running = λ k. same_engine e k || s.running k }
act (stop_firmware e) s = record s { running = λ k. s.running k && not (same_engine e k) }
act _ s = s

abbrev pub act_all : List Action → Machine → Machine
act_all [] s = s
act_all (a ∷ as_) s = act_all as_ (act a s)

act_all-append :
    (xs ys : List Action) (s : Machine) → act_all (xs ++ ys) s ≡ act_all ys (act_all xs s)
act_all-append [] ys s = refl
act_all-append (x ∷ xs) ys s = act_all-append xs ys (act x s)

act_all-sleeps :
    (n : ℕ) (ys : List Action) (s : Machine)
    → act_all (replicate n sleep_half ++ ys) s ≡ act_all ys s
act_all-sleeps zero ys s = refl
act_all-sleeps (suc n) ys s = act_all-sleeps n ys s

-- The trace of the start without the waits.
abbrev unwaited : List Action
unwaited =
    before_ipc ++ (firmwares ++ (lcd_writes ++ (fbset ∷ video (modprobe ti81xxhdmi "") ∷ [])))

started-unwaited : (a b : ℕ) (s : Machine) → act_all (started_trace a b) s ≡ act_all unwaited s
started-unwaited a b s =
    let s1 = act_all before_ipc s in
    let s2 = act_all (firmwares ++ lcd_writes) s1 in
    let hdmi = video (modprobe ti81xxhdmi "") ∷ [] in
    act_all-sleeps a
      (firmwares ++ ((lcd_writes ++ (replicate b sleep_half ++ (fbset ∷ []))) ++ hdmi)) s1
    ∙ act_all-append (replicate b sleep_half ++ (fbset ∷ [])) hdmi s2
    ∙ ap (act_all hdmi) (act_all-sleeps b (fbset ∷ []) s2)

-- The modules that are loaded after the start.
abbrev pub loaded_up : Machine → Module → Bool
loaded_up s ti81xxvo = s.loaded ti81xxvo
loaded_up s ti81xxvin = s.loaded ti81xxvin
loaded_up s _ = true

-- The modules that are loaded after the start and the stop.
abbrev pub loaded_down : Machine → Module → Bool
loaded_down s vpss = s.loaded ti81xxvo || s.loaded ti81xxvin
loaded_down s ti81xxvo = s.loaded ti81xxvo
loaded_down s ti81xxvin = s.loaded ti81xxvin
loaded_down s _ = false

start-loaded : (m : Module) (s : Machine) → (act_all unwaited s).loaded m ≡ loaded_up s m
start-loaded syslink s = refl
start-loaded vpss s = refl
start-loaded ti81xxfb s = refl
start-loaded ti81xxhdmi s = refl
start-loaded ti81xxvo s = refl
start-loaded ti81xxvin s = refl

all_running : (e : Engine) (s : Machine) → (act_all unwaited s).running e ≡ true
all_running hdvicp2 s = refl
all_running hdvpss s = refl

and_false : (b : Bool) → (b && false) ≡ false
and_false true = refl
and_false false = refl

stop-loaded :
    (m : Module) (s : Machine) → (act_all stopping (act_all unwaited s)).loaded m ≡ loaded_down s m
stop-loaded syslink s = and_false _
stop-loaded vpss s = elim (Bool-cases (s.loaded ti81xxvo)) [
  | inl e ↦ rw e refl
  | inr e ↦ elim (Bool-cases (s.loaded ti81xxvin)) [
    | inl h ↦ rw (e, h) refl
    | inr h ↦ rw (e, h) refl
  ]
]
stop-loaded ti81xxfb s = refl
stop-loaded ti81xxhdmi s = refl
stop-loaded ti81xxvo s = elim (Bool-cases (s.loaded ti81xxvo)) [
  | inl e ↦ rw e refl
  | inr e ↦ rw e refl
]
stop-loaded ti81xxvin s = elim (Bool-cases (s.loaded ti81xxvin)) [
  | inl e ↦ elim (Bool-cases (s.loaded ti81xxvo)) [
    | inl h ↦ rw (e, h) refl
    | inr h ↦ rw (e, h) refl
  ]
  | inr e ↦ rw e refl
]

all_stopped : (e : Engine) (s : Machine) → (act_all stopping (act_all unwaited s)).running e ≡ false
all_stopped hdvicp2 s = refl
all_stopped hdvpss s = refl

-- Let the devices of syslink be missing at the first `a` tests for them and there at the next, and
-- /dev/fb0 so at the first `b` tests. With more fuel than `a` and `b`, `load-hd-firmware.sh start`
-- comes to its end, with status 0. Whatever was loaded before, of the modules of syslink and of the
-- display, the four of the script are then loaded, ti81xxvo and ti81xxvin are if they were, and the
-- two engines run. After `load-hd-firmware.sh stop`, with no program at the devices, neither engine runs, and of the four modules
-- none is left, except that rmmod refuses to take away vpss if ti81xxvo or ti81xxvin was loaded;
-- these two stay as they were.
pub start-stop :
    (ipc fb0 : ℕ → Bool) (a b fuel : ℕ) (s : Machine)
    → a < fuel
    → b < fuel
    → FirstAt ipc a
    → FirstAt fb0 b
    → (up : List Action) × (down : List Action) × (load_hd_firmware start ipc fb0 fuel
        ≡ some (0, up))
      × (load_hd_firmware stop ipc fb0 fuel ≡ some (0, down))
      × ((m : Module) → (act_all up s).loaded m ≡ loaded_up s m)
      × ((e : Engine) → (act_all up s).running e ≡ true)
      × ((m : Module) → (act_all down (act_all up s)).loaded m ≡ loaded_down s m)
      × ((e : Engine) → (act_all down (act_all up s)).running e ≡ false)
unfolding load_hd_firmware
start-stop ipc fb0 a b fuel s h k first second =
    let same = started-unwaited a b s in
    (
      started_trace a b,
      stopping,
      start-ends ipc fb0 a b fuel h k first second,
      refl,
      (λ m. ap (λ (t : Machine). t.loaded m) same ∙ start-loaded m s),
      (λ e. ap (λ (t : Machine). t.running e) same ∙ all_running e s),
      (λ m. ap (λ t. (act_all stopping t).loaded m) same ∙ stop-loaded m s),
      (λ e. ap (λ t. (act_all stopping t).running e) same ∙ all_stopped e s),
    )
