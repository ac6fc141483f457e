-- ===== src/Edge/Hosts/Laws.antt =====
-- What is read from a Host header (edge/http.rs).
use rustunnel.Prelude.{
  ℕ, ◌≡◌, refl, ap, ◌∙◌, inl, inr, ◌↔◌, true, false, Option, none, some, [], ◌∷◌, ◌++◌, arith,
  nat_beq, length, length-append, all, Option-cases, Bool-cases,
}
use mathlib.Core.List.{append-nil}
use rustunnel.Prelude.Eq.{◌==◌, list_eq, nat_eq, eq_iff, eq_refl}
use rustunnel.Core.Types.{Text}
use rustunnel.Edge.Hosts.{
  colon, dot, before_colon, strip_suffix, extract_subdomain, grow, split_last_colon, is_host_byte,
  sanitize_host,
}

-- A text in which no colon stands.
abbrev pub HasNoColon : Text → Type 0
HasNoColon [] = Unit
HasNoColon (b ∷ s) = (nat_beq b colon ≡ false) × HasNoColon s

-- The port of a host, with its colon, or nothing.
abbrev pub IsTail : Text → Type 0
IsTail [] = Unit
IsTail (b ∷ s) = b ≡ colon

pub before_colon-append :
    (name tail : Text) → HasNoColon name → IsTail tail → before_colon (name ++ tail) ≡ name
unfolding before_colon
before_colon-append [] [] h t = refl
before_colon-append [] (b ∷ s) h t = ground arith
before_colon-append (b ∷ name) tail (e, h) t = ground (arith, before_colon-append name tail h t)

after :
    (host : Text)
    → (tail : Text) × (host ≡ before_colon host ++ tail)
      × IsTail tail
      × HasNoColon (before_colon host)
unfolding before_colon
after [] = ([], refl, tt, tt)
after (b ∷ s) =
    let (tail, e, t, n) = after s in
    elim (Bool-cases (nat_beq b colon)) [
      | inl c ↦ (b ∷ s, rw c refl, ground arith, rw c tt)
      | inr c ↦ (tail, rw c (ap (◌∷◌ b) e), t, rw c (c, n))
    ]

strip_suffix-append : (suffix s : Text) → strip_suffix suffix (s ++ suffix) ≡ some s
unfolding strip_suffix
strip_suffix-append [] [] = refl
strip_suffix-append (b ∷ suffix) [] = rw (eq_refl (b ∷ suffix)) refl
strip_suffix-append suffix (b ∷ s) = elim (Bool-cases (suffix == b ∷ (s ++ suffix))) [
  | inl e ↦ absurd (
      omega (
        arith,
        ap (length {A = ℕ}) ((eq_iff suffix (b ∷ (s ++ suffix))).0 e),
        length-append {0} s suffix,
      ))
  | inr e ↦ rw (e, strip_suffix-append suffix s) refl
]

pub strip_suffix-some :
    (suffix host : Text) {s : Text} → strip_suffix suffix host ≡ some s → host ≡ s ++ suffix
unfolding strip_suffix
strip_suffix-some suffix [] {s} h = elim (Bool-cases (suffix == [])) [
  | inl e ↦ ground (arith, eq_iff suffix [])
  | inr e ↦ ground arith
]
strip_suffix-some suffix (b ∷ host) {s} h = elim (Bool-cases (suffix == b ∷ host)) [
  | inl e ↦ ground (arith, eq_iff suffix (b ∷ host))
  | inr e ↦ elim (Option-cases (strip_suffix suffix host)) [
    | inl n ↦ absurd (ground arith)
    | inr (r, er) ↦ ground (arith, strip_suffix-some suffix host er)
  ]
]

-- `sub.domain` is not the domain.
longer : (sub domain : Text) → (sub ++ dot ∷ domain == domain) ≡ false
longer sub domain = elim (Bool-cases (sub ++ dot ∷ domain == domain)) [
  | inl e ↦ absurd (
      omega (
        arith,
        ap (length {A = ℕ}) ((eq_iff (sub ++ dot ∷ domain) domain).0 e),
        length-append {0} sub (dot ∷ domain),
      ))
  | inr e ↦ e
]

append-HasNoColon : (s t : Text) → HasNoColon s → HasNoColon t → HasNoColon (s ++ t)
append-HasNoColon [] t h k = k
append-HasNoColon (b ∷ s) t (e, h) k = (e, append-HasNoColon s t h k)

-- What stands before the domain and a port.
abbrev pub IsHostOf : Text → Text → Text → Type 0
IsHostOf host sub domain = (tail : Text) × (host ≡ (sub ++ dot ∷ domain) ++ tail) × IsTail tail

prefix-HasNoColon : (s t : Text) → HasNoColon (s ++ t) → HasNoColon s
prefix-HasNoColon [] t h = tt
prefix-HasNoColon (b ∷ s) t (e, h) = (e, prefix-HasNoColon s t h)

-- The subdomain of a host is found exactly if the host is the subdomain, a dot, the server's
-- domain and nothing or a colon and a port, where the subdomain has no colon; the server's domain
-- has none.
pub extract_subdomain_iff :
    (host sub domain : Text)
    → HasNoColon domain
    → (extract_subdomain host domain ≡ some sub) ↔ (IsHostOf host sub domain × HasNoColon sub)
unfolding extract_subdomain
extract_subdomain_iff host sub domain h = (found, back)
  where
    found : extract_subdomain host domain ≡ some sub → IsHostOf host sub domain × HasNoColon sub
    found e = elim (Bool-cases (before_colon host == domain)) [
      | inl d ↦ absurd (ground arith)
      | inr d ↦
          let (tail, eh, t, n) = after host in
          let es : before_colon host ≡ sub ++ dot ∷ domain =
            strip_suffix-some (dot ∷ domain) (before_colon host) (ground arith) in
          (
            (tail, eh ∙ ap (λ (x : Text). x ++ tail) es, t),
            prefix-HasNoColon sub (dot ∷ domain) (rw es at n),
          )
    ]

    back : IsHostOf host sub domain × HasNoColon sub → extract_subdomain host domain ≡ some sub
    back ((tail, eh, t), n) =
        let e : before_colon host ≡ sub ++ dot ∷ domain = rw eh (
          before_colon-append (sub ++ dot ∷ domain) tail
            (append-HasNoColon sub (dot ∷ domain) n (refl, h)) t) in
        rw (e, longer sub domain) (strip_suffix-append (dot ∷ domain) sub)

abbrev port_text : Option Text → Text
port_text none = []
port_text (some port) = port

grow-name :
    (b : ℕ) (p : Text × Option Text) (s : Text)
    → s ≡ p.0 ++ port_text p.1
    → IsTail (port_text p.1)
    → (b ∷ s ≡ (grow b p).0 ++ port_text (grow b p).1) × IsTail (port_text (grow b p).1)
grow-name b (name, some port) s e t = (ap (◌∷◌ b) e, t)
grow-name b (name, none) s e t = elim (Bool-cases (nat_beq b colon)) [
  | inl c ↦ rw c (ap (◌∷◌ b) (e ∙ append-nil name), ground arith)
  | inr c ↦ rw c (ap (◌∷◌ b) e, tt)
]

split_last_colon-parts :
    (s : Text)
    → (s ≡ (split_last_colon s).0 ++ port_text (split_last_colon s).1)
      × IsTail (port_text (split_last_colon s).1)
unfolding split_last_colon
split_last_colon-parts [] = (refl, tt)
split_last_colon-parts (b ∷ s) =
    let (e, t) = split_last_colon-parts s in grow-name b (split_last_colon s) s e t

host_bytes-HasNoColon : (s : Text) → all is_host_byte s ≡ true → HasNoColon s
host_bytes-HasNoColon [] h = tt
host_bytes-HasNoColon (b ∷ s) h = (ground arith, host_bytes-HasNoColon s (ground arith))

pub sanitize_host-safe :
    (host : Text) {h : Text}
    → sanitize_host host ≡ some h
    → all is_host_byte (before_colon h) ≡ true
unfolding sanitize_host
sanitize_host-safe host {h} e =
    let (parts, tail) = split_last_colon-parts host in
    let safe : all is_host_byte (split_last_colon host).0 ≡ true = ground arith in
    let same : h ≡ host = ground arith in
    let name : before_colon host ≡ (split_last_colon host).0 =
      ap before_colon parts
      ∙ before_colon-append (split_last_colon host).0 (port_text (split_last_colon host).1)
          (host_bytes-HasNoColon (split_last_colon host).0 safe) tail in
    rw (same, name) safe
