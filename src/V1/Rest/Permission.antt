-- ===== src/V1/Rest/Permission.antt =====
-- The permissions that version 1 asks for: for a REST request (pkg/route/route-message-handler.go) and
-- for a message (pkg/service/providers/nats/nats-provider.go).
use spike_broker.Prelude.{
  ℕ, ◌≡◌, refl, ap, ◌∙◌, ◌≢◌, true, false, List, [], ◌∷◌, ◌++◌, arith, length, Text,
}
use mathlib.Core.List.{append_assoc}
use spike_broker.Text.{split, join, has_prefix}
use spike_broker.Text.Split.{
  Free, split-append, split-append_any, split_of_Free, join-split, split-ne-nil,
}
use spike_broker.V1.Rids.{Pattern, endpoint_name, endpoint_no_method}
use spike_broker.V1.Auth.{HavePermissionRequest}
use spike_broker.V1.Rest.{remove_all, first_text, last_text, permission_of}

-- In `s` followed by `sub`, nothing that begins in `s` reads `sub`.
abbrev pub Unread : Text → Text → Type 0
Unread sub [] = Unit {0}
Unread sub (c ∷ s) = (has_prefix ((c ∷ s) ++ sub) sub ≡ false) × Unread sub s

has_prefix_refl : (s : Text) → has_prefix s s ≡ true
unfolding has_prefix
has_prefix_refl [] = refl
has_prefix_refl (c ∷ s) = ground (arith, has_prefix_refl s)

remove_all_skip : (sub s : Text) → remove_all sub (length s) s ≡ []
unfolding remove_all
remove_all_skip sub [] = refl
remove_all_skip sub (c ∷ s) = remove_all_skip sub s

remove_all-append :
    (c : ℕ) (sub s : Text) → Unread (c ∷ sub) s → remove_all (c ∷ sub) 0 (s ++ (c ∷ sub)) ≡ s
unfolding remove_all
remove_all-append c sub [] h =
    rw (has_prefix_refl (c ∷ sub))
      (ap (λ (n : ℕ). remove_all (c ∷ sub) n sub) (omega arith) ∙ remove_all_skip (c ∷ sub) sub)
remove_all-append c sub (d ∷ s) h = ground (arith, h.0, remove_all-append c sub s h.1)

last_text-append : (xs : List Text) (m : Text) → last_text (xs ++ (m ∷ [])) ≡ m
unfolding last_text
last_text-append [] m = refl
last_text-append (x ∷ []) m = refl
last_text-append (x ∷ y ∷ ys) m = last_text-append (y ∷ ys) m

first_text-append : (xs ys : List Text) → xs ≢ [] → first_text (xs ++ ys) ≡ first_text xs
first_text-append [] ys h = absurd (h refl)
first_text-append (x ∷ xs) ys h = refl

abbrev pub asked : Pattern → HavePermissionRequest
asked p = record { service = p.service; endpoint = endpoint_no_method p; method = p.method }

-- The permission that a name with a last part `m` stands for.
permission_of-append :
    (s m : Text)
    → Free b'.' m
    → Unread (b'.' ∷ m) s
    → permission_of (s ++ (b'.' ∷ m))
      ≡ record { service = first_text (split b'.' s); endpoint = s; method = m }
unfolding permission_of
permission_of-append s m bare once =
    let parts =
      split-append_any b'.' s m
      ∙ ap (λ (ys : List Text). split b'.' s ++ ys) (split_of_Free b'.' m bare) in
    let last = ap last_text parts ∙ last_text-append (split b'.' s) m in
    let first =
      ap first_text parts ∙ first_text-append (split b'.' s) (m ∷ []) (split-ne-nil b'.' s) in
    let whole = join-split b'.' (s ++ (b'.' ∷ m)) in
    let cut = remove_all-append b'.' m s once in
    ground (
      arith,
      last,
      first,
      ap (λ (n : Text). remove_all (b'.' ∷ n) 0 (join b'.' (split b'.' (s ++ (b'.' ∷ m))))) last,
      ap (λ (t : Text). remove_all (b'.' ∷ m) 0 t) whole,
      cut,
    )

endpoint_name-append :
    (p : Pattern)
    → p.endpoint ≡ p.endpoint_no_params
    → endpoint_name p ≡ endpoint_no_method p ++ (b'.' ∷ p.method)
unfolding endpoint_name endpoint_no_method
endpoint_name-append p unbound =
    ground (arith, unbound, append_assoc p.service (b'.' ∷ p.endpoint) (b'.' ∷ p.method))

first_text-endpoint_no_method :
    (p : Pattern) → Free b'.' p.service → first_text (split b'.' (endpoint_no_method p)) ≡ p.service
unfolding endpoint_no_method
first_text-endpoint_no_method p bare = ground (
  arith,
  ap first_text (split_of_Free b'.' p.service bare),
  ap first_text (split-append b'.' p.service p.endpoint bare),
)

-- A REST request asks for the permission that a message to the same endpoint asks for. The service
-- and the method have no dot, the pattern has no bound parameters, and the method behind its dot
-- stands nowhere else in the name.
pub permission_of-endpoint_name :
    (p : Pattern)
    → Free b'.' p.service
    → Free b'.' p.method
    → p.endpoint ≡ p.endpoint_no_params
    → Unread (b'.' ∷ p.method) (endpoint_no_method p)
    → permission_of (endpoint_name p) ≡ asked p
permission_of-endpoint_name p bare verb unbound once =
    ap permission_of (endpoint_name-append p unbound)
    ∙ permission_of-append (endpoint_no_method p) p.method verb once
    ∙ ap (λ (s : Text). record { service = s; endpoint = endpoint_no_method p; method = p.method })
        (first_text-endpoint_no_method p bare)
