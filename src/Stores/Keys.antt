-- ===== src/Stores/Keys.antt =====
-- The keys of devices: no two of them have one key, although a host may hold colons.
use Prim.Native.Char.{Char}
use Prim.Native.String.{String}
use Prim.Native.String.{◌++◌ as ◌<>◌}
use text.Mathlib.TextLemmas.{cons-append, nil-append, head-eq_of_cons-eq, tail-eq_of_cons-eq}
use nw_edit.Prelude.{
  suc, ◌≡◌, refl, sym, ap, ◌∙◌, subst, true, false, not, some, [], ◌∷◌, inl, inr, arith, ◌==◌,
  eq_iff, Bool-cases, join, show, show_int, ℤ, pos, negsuc,
}
use nw_edit.Text.Chars.{is, is_digit}
use nw_edit.Domain.Models.{device_key, DeviceProfile, profile_key}
use nw_edit.Stores.DeviceStore.{DeviceStore, get_by_key}
use nw_edit.DeviceImport.Row.{read_int}
use nw_edit.DeviceImport.Row.Numbers.{all_chars, show_digits, minus, read_int-show_int}

abbrev HasNoColon : String → Type 0
HasNoColon text = all_chars (λ c. not (is 58 c)) text ≡ true

digit_no_colon : (c : Char) → is_digit c ≡ true → is 58 c ≡ false
unfolding is_digit
digit_no_colon c h = ground arith

digits_no_colon : (text : String) → all_chars is_digit text ≡ true → HasNoColon text
digits_no_colon String.[] h = refl
digits_no_colon (String.◌∷◌ c text) h = ground (arith, digit_no_colon c, digits_no_colon text)

int_no_colon : (n : ℤ) → HasNoColon (show_int n)
unfolding show_int
int_no_colon (pos n) = digits_no_colon (show n) (show_digits n)
int_no_colon (negsuc n) =
    rw (minus (show (suc n))) (digits_no_colon (show (suc n)) (show_digits (suc n)))

colon_after : (before after : String) → HasNoColon (before <> String.◌∷◌ ":" after) → ⊥
colon_after String.[] after h = cc (rw nil-append at h)
colon_after (String.◌∷◌ c before) after h =
    let shorter = rw cons-append at h in colon_after before after (ground arith)

-- Texts with one last colon are equal only part by part.
last_colon :
    (a b s t : String)
    → HasNoColon s
    → HasNoColon t
    → a <> String.◌∷◌ ":" s ≡ b <> String.◌∷◌ ":" t
    → (a ≡ b) × (s ≡ t)
last_colon String.[] String.[] s t hs ht e =
    (refl, tail-eq_of_cons-eq (sym (nil-append _) ∙ e ∙ nil-append _))
last_colon String.[] (String.◌∷◌ d b) s t hs ht e =
    let tails = tail-eq_of_cons-eq (sym (nil-append _) ∙ e ∙ cons-append d b _) in
    absurd (colon_after b t (subst HasNoColon tails hs))
last_colon (String.◌∷◌ c a) String.[] s t hs ht e =
    let tails = tail-eq_of_cons-eq (sym (cons-append c a _) ∙ e ∙ nil-append _) in
    absurd (colon_after a s (subst HasNoColon (sym tails) ht))
last_colon (String.◌∷◌ c a) (String.◌∷◌ d b) s t hs ht e =
    let same = sym (cons-append c a _) ∙ e ∙ cons-append d b _ in
    let (hosts, ports) = last_colon a b s t hs ht (tail-eq_of_cons-eq same) in
    (ap (String.◌∷◌ c) hosts ∙ ap (λ x. String.◌∷◌ x b) (head-eq_of_cons-eq same), ports)

device_key_parts :
    (host : String) (port : ℤ) → device_key host port ≡ host <> String.◌∷◌ ":" (show_int port)
unfolding device_key join
device_key_parts host port = rw (nil-append, cons-append, nil-append, nil-append) refl

show_int_injective : (m n : ℤ) → show_int m ≡ show_int n → m ≡ n
show_int_injective m n e =
    let read = sym (read_int-show_int m) ∙ ap read_int e ∙ read_int-show_int n in cc

-- Two devices with one key have one host and one port.
pub device_key_injective :
    (host host' : String) (port port' : ℤ)
    → device_key host port ≡ device_key host' port'
    → (host ≡ host') × (port ≡ port')
device_key_injective host host' port port' e =
    let parts = sym (device_key_parts host port) ∙ e ∙ device_key_parts host' port' in
    let (hosts, ports) =
      last_colon host host' (show_int port) (show_int port') (int_no_colon port)
        (int_no_colon port') parts in
    (hosts, show_int_injective port port' ports)

found_by_key :
    (store : DeviceStore) (key : String) (profile : DeviceProfile)
    → get_by_key store key ≡ some profile
    → profile_key profile ≡ key
unfolding get_by_key
found_by_key [] key profile h = cc
found_by_key (device ∷ store) key profile h = elim (Bool-cases (profile_key device == key)) [
  | inl same ↦
      let found : device ≡ profile = cc (rw same at h) in
      subst (λ d. profile_key d ≡ key) found ((eq_iff (profile_key device) key).0 same)
  | inr other ↦ found_by_key store key profile (rw other at h)
]

-- What is found under the key of a host and a port is a profile of that host and that port, which
-- the store holds.
pub get_by_key-device_key :
    (store : DeviceStore) (host : String) (port : ℤ) (profile : DeviceProfile)
    → get_by_key store (device_key host port) ≡ some profile
    → (profile.host ≡ host) × (profile.port ≡ port)
get_by_key-device_key store host port profile h =
    device_key_injective profile.host host profile.port port
      (found_by_key store (device_key host port) profile h)
