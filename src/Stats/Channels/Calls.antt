-- ===== src/Stats/Channels/Calls.antt =====
-- statshandler/stats.go: what the calls of the hooks send on one channel.
use mathlib.Core.Path.{subst}
use dinosaur_dns.Common.{
  ◌≡◌, ◌≢◌, refl, sym, ap, ◌∙◌, true, false, List, [], ◌∷◌, map, Str, Str-discrete, str_eq,
  str_eq_self, str_eq_ne, arith,
}
use dinosaur_dns.Stats.{ConnectionLog}
use dinosaur_dns.Stats.Buffer.Hooks.{hooks_of}
use dinosaur_dns.Stats.Channels.{Channel, send, at_client, call_hooks}

pub at_client_self :
    (id : Str) (f : Channel → Channel) (channels : Str → Channel)
    → at_client id f channels id ≡ f (channels id)
unfolding at_client
at_client_self id f channels = rw (str_eq_self id) refl

pub at_client_ne :
    (id j : Str) (f : Channel → Channel) (channels : Str → Channel)
    → j ≢ id
    → at_client j f channels id ≡ channels id
unfolding at_client
at_client_ne id j f channels ne = rw (str_eq_ne j id ne) refl

module _ (marshal : ConnectionLog → Str) where
  pub call_hooks_closed :
      (id : Str) (c : ConnectionLog) (hooks : List Str) (channels : Str → Channel)
      → (channels id).is_open ≡ false
      → call_hooks marshal (map (λ h. (h, c)) hooks) channels id ≡ channels id
  unfolding call_hooks send
  call_hooks_closed id c [] channels closed = refl
  call_hooks_closed id c (h ∷ hooks) channels closed =
      let same : at_client h (send (marshal c)) channels id ≡ channels id =
        elim (Str-discrete h id) [
          | yes p ↦ rw p (at_client_self id (send (marshal c)) channels ∙ rw closed refl)
          | no p ↦ at_client_ne id h (send (marshal c)) channels p
        ] in
      call_hooks_closed id c hooks (at_client h (send (marshal c)) channels)
        (ap (λ ch. ch.is_open) same ∙ closed)
      ∙ same

  call_hooks_none :
      (id : Str) (c : ConnectionLog) (hooks : List Str) (channels : Str → Channel)
      → hooks_of id hooks ≡ 0
      → call_hooks marshal (map (λ h. (h, c)) hooks) channels id ≡ channels id
  unfolding call_hooks hooks_of
  call_hooks_none id c [] channels none_there = refl
  call_hooks_none id c (h ∷ hooks) channels none_there = elim (Str-discrete h id) [
    | yes p ↦
        absurd
          (ground (arith, subst (λ b. b ≡ true) (ap (λ x. str_eq x id) (sym p)) (str_eq_self id)))
    | no p ↦
        call_hooks_none id c hooks (at_client h (send (marshal c)) channels)
          (ground (arith, str_eq_ne h id p))
        ∙ at_client_ne id h (send (marshal c)) channels p
  ]

  pub call_hooks_once :
      (id : Str) (c : ConnectionLog) (hooks : List Str) (channels : Str → Channel)
      → hooks_of id hooks ≡ 1
      → call_hooks marshal (map (λ h. (h, c)) hooks) channels id ≡ send (marshal c) (channels id)
  unfolding call_hooks hooks_of
  call_hooks_once id c [] channels once = absurd (omega (arith, once))
  call_hooks_once id c (h ∷ hooks) channels once = elim (Str-discrete h id) [
    | yes p ↦
        call_hooks_none id c hooks (at_client h (send (marshal c)) channels)
          (ground (arith, subst (λ b. b ≡ true) (ap (λ x. str_eq x id) (sym p)) (str_eq_self id)))
        ∙ rw p (at_client_self id (send (marshal c)) channels)
    | no p ↦
        call_hooks_once id c hooks (at_client h (send (marshal c)) channels)
          (ground (arith, str_eq_ne h id p))
        ∙ ap (send (marshal c)) (at_client_ne id h (send (marshal c)) channels p)
  ]
