-- ===== src/DBus/Requests/Overlap.antt =====
-- Two requests in flight at once.
use chronos_updates.Common.{ℕ, ◌<◌, ◌≡◌, Option, refl, some, arith, ◌>>=◌}
use chronos_updates.DBus.Glib.{DBusGlib}
use chronos_updates.DBus.Client.{
  AsyncData, Session, Invocation, Pending, slice_new, slice_free, async_data_free, complete,
}
use chronos_updates.DBus.Requests.{Request, member, arguments, reply_callback, asynchronous}
use chronos_updates.DBus.Requests.Laws.{asynchronous-begin}
use chronos_updates.DBus.Requests.Delivery.{complete-invokes}

module _ (lib : DBusGlib) where
  open lib use {Proxy, CallId}

  -- A completed call went to the function and the data of its slice, and freed that slice only.
  record Delivered (d : AsyncData) (u : ℕ) (p : Proxy) (call : Pending lib) (s : Session lib)
      : Type 0 where
    invocation : Invocation lib
    after : Session lib
    completes : complete lib p call s ≡ some (invocation, after)
    callback : invocation.callback ≡ d.cb
    userdata : invocation.userdata ≡ d.userdata
    proxy : invocation.proxy ≡ p
    slices : after.slices ≡ slice_free u s.slices

  complete-Delivered :
      (r : Request) (s : Session lib) (p : Proxy) (c : CallId) (u : ℕ) {d : AsyncData}
      → s.slices.cell u ≡ some d
      → Delivered d u p
          (record {
            call = c;
            notify = reply_callback lib r;
            user_data = u;
            destroy = async_data_free;
          })
          s
  complete-Delivered r s p c u e = record {
    invocation = _;
    after = _;
    completes = complete-invokes lib r s p c u e;
    callback = refl;
    userdata = refl;
    proxy = refl;
    slices = refl;
  }

  -- Two requests are made, then the second is completed, then the first.
  abbrev pub overlapped :
      Request
      → Request
      → Session lib
      → Proxy
      → Proxy
      → AsyncData
      → AsyncData
      → Option (Invocation lib × Invocation lib × Session lib)
  overlapped r₁ r₂ s p q d e = asynchronous lib r₁ s p d.cb d.userdata >>= λ (a, s₁).
      asynchronous lib r₂ s₁ q e.cb e.userdata >>= λ (b, s₂).
      complete lib q b s₂ >>= λ (j, s₃). complete lib p a s₃ >>= λ (i, s₄). some (i, j, s₄)

  overlapped-runs :
      (r₁ r₂ : Request) (s : Session lib) (p q : Proxy) (d e : AsyncData) {a b : Pending lib}
      {i j : Invocation lib} {s₁ s₂ s₃ s₄ : Session lib}
      → asynchronous lib r₁ s p d.cb d.userdata ≡ some (a, s₁)
      → asynchronous lib r₂ s₁ q e.cb e.userdata ≡ some (b, s₂)
      → complete lib q b s₂ ≡ some (j, s₃)
      → complete lib p a s₃ ≡ some (i, s₄)
      → overlapped r₁ r₂ s p q d e ≡ some (i, j, s₄)
  overlapped-runs r₁ r₂ s p q d e h₁ h₂ h₃ h₄ = ground (arith, h₁, h₂, h₃, h₄)

  -- Of two requests in flight, completed in the opposite order, each reply goes to the function
  -- and the user data that its own request named, with its own proxy, and the slices that were in
  -- use before are as they were.
  pub overlapping_requests :
      (r₁ r₂ : Request) (s : Session lib) (p q : Proxy) (d e : AsyncData) (k : ℕ)
      → k < s.slices.next
      → (i j : Invocation lib) × (t : Session lib) × (overlapped r₁ r₂ s p q d e ≡ some (i, j, t))
        × (i.callback ≡ d.cb)
        × (i.userdata ≡ d.userdata)
        × (i.proxy ≡ p)
        × (j.callback ≡ e.cb)
        × (j.userdata ≡ e.userdata)
        × (j.proxy ≡ q)
        × (t.slices.cell k ≡ s.slices.cell k)
  overlapping_requests r₁ r₂ s p q d e k lt =
      let (c₁, w₁) = lib.begin_call s.world p (member r₁) (arguments r₁) in
      let (c₂, w₂) = lib.begin_call w₁ q (member r₂) (arguments r₂) in
      let m₁ = slice_new d s.slices in
      let m₂ = slice_new e m₁ in
      let s₂ : Session lib = record { world = w₂; slices = m₂ } in
      let second : Delivered e m₁.next q _ s₂ =
        complete-Delivered r₂ s₂ q c₂ m₁.next (ground arith) in
      let kept : second.after.slices.cell s.slices.next ≡ some d =
        rw second.slices (ground arith) in
      let first : Delivered d s.slices.next p _ second.after =
        complete-Delivered r₁ second.after p c₁ s.slices.next kept in
      (
        first.invocation,
        second.invocation,
        first.after,
        overlapped-runs r₁ r₂ s p q d e (asynchronous-begin lib r₁ s p d.cb d.userdata)
            (asynchronous-begin lib r₂ _ q e.cb e.userdata) second.completes first.completes,
        first.callback,
        first.userdata,
        first.proxy,
        second.callback,
        second.userdata,
        second.proxy,
        rw (first.slices, second.slices) (ground arith),
      )
