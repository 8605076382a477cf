-- ===== src/MacSync/HolderAnswers.antt =====
-- What HolderCheck's answers mean.
use mathlib.Core.Path.{subst}
use drawbridge.Base.{
  ℕ, ◌≡◌, refl, sym, ◌∙◌, inl, inr, Bool, true, false, not, ◌&&◌, ◌||◌, Option, none, some, List,
  [], ◌∷◌, eqb, if◌then◌else◌, any, arith, Bool-cases,
}
use drawbridge.Base.Eq.{◌==◌, string_eq, contains}
use drawbridge.MacSync.Listeners.{
  Addr, ip4, Listener, listener_eq, v4_any, v6_any, unmap, addr_beq, no_addr, ip6, listener_beq_iff,
}
use drawbridge.MacSync.Holder.{
  holds, first_holder, wildcard_holder, Answer, unknown, free, held, found, polled_holder,
  holder_check,
}

-- The listener takes the connections to every IPv4 address of the Mac, 127.0.0.1 among them: it is
-- bound to 0.0.0.0, or to :: and not for IPv6 alone.
abbrev pub takes_v4 : ℕ → Listener → Bool
takes_v4 port l =
    l.proto == "tcp"
    && eqb l.port port
    && (addr_beq (unmap l.addr) v4_any || (addr_beq (unmap l.addr) v6_any && not l.v6_only))

holds-takes_v4 :
    (port n : ℕ) (l : Listener) (a : Addr)
    → unmap l.addr ≡ a
    → holds port (ip4 n) l ≡ takes_v4 port l
unfolding holds
holds-takes_v4 port n l no_addr h = rw h (ground arith)
holds-takes_v4 port n l (ip4 m) h = rw h (ground arith)
holds-takes_v4 port n l (ip6 m z) h = rw h (ground arith)

abbrev pub read_of : Option (List Listener) → List Listener
read_of none = []
read_of (some ls) = ls

abbrev pub is_empty : List Listener → Bool
is_empty [] = true
is_empty (l ∷ ls) = false

-- What an answer on a TCP port says of the listeners that were read.
abbrev pub says : ℕ → List Listener → Answer → Bool
says port ls unknown = is_empty ls
says port ls free = not (is_empty ls) && not (any (takes_v4 port) ls)
says port ls (held l) = contains l ls && takes_v4 port l

-- The same of the search alone.
abbrev tells : ℕ → List Listener → Option Listener → Bool
tells port ls none = not (any (takes_v4 port) ls)
tells port ls (some l) = contains l ls && takes_v4 port l

tells-later :
    (port : ℕ) (x : Listener) (xs : List Listener) (o : Option Listener)
    → takes_v4 port x ≡ false
    → tells port xs o ≡ true
    → tells port (x ∷ xs) o ≡ true
unfolding contains
tells-later port x xs none h t = ground arith
tells-later port x xs (some l) h t = ground arith

tells-first :
    (port : ℕ) (x : Listener) (xs : List Listener)
    → takes_v4 port x ≡ true
    → tells port (x ∷ xs) (some x) ≡ true
unfolding contains
tells-first port x xs h = ground (arith, listener_beq_iff x x)

first_holder-tells :
    (port n : ℕ) (ls : List Listener) → tells port ls (first_holder port (ip4 n) ls) ≡ true
unfolding first_holder
first_holder-tells port n [] = refl
first_holder-tells port n (x ∷ xs) =
    let rest = first_holder port (ip4 n) xs in
    let same = holds-takes_v4 port n x (unmap x.addr) refl in
    elim (Bool-cases (holds port (ip4 n) x)) [
      | inl e ↦
          subst (λ b. tells port (x ∷ xs) (if b then some x else rest) ≡ true) (sym e)
            (tells-first port x xs (sym same ∙ e))
      | inr e ↦
          subst (λ b. tells port (x ∷ xs) (if b then some x else rest) ≡ true) (sym e)
            (tells-later port x xs rest (sym same ∙ e) (first_holder-tells port n xs))
    ]

found-says :
    (port : ℕ) (l : Listener) (ls : List Listener) (o : Option Listener)
    → tells port (l ∷ ls) o ≡ true
    → says port (l ∷ ls) (found o) ≡ true
unfolding found
found-says port l ls none h = h
found-says port l ls (some x) h = h

-- For a mirror on an IPv4 address and a TCP port: the check does not know if the poll failed or gave
-- nothing; a holder that it names is among the listeners read, holds the port and takes the
-- connections to every IPv4 address; and if it says that there is none, no listener does.
pub holder_check-says :
    (port n : ℕ) (polled : Option (List Listener))
    → says port (read_of polled) (holder_check (some (ip4 n)) "tcp" port polled) ≡ true
unfolding holder_check polled_holder wildcard_holder unmap
holder_check-says port n none = refl
holder_check-says port n (some []) = refl
holder_check-says port n (some (l ∷ ls)) =
    found-says port l ls (first_holder port (ip4 n) (l ∷ ls)) (first_holder-tells port n (l ∷ ls))
