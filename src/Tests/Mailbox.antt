-- ===== src/Tests/Mailbox.antt =====
-- Runs of src/mailbox.rs.
use bitmancer.Prelude.{ℕ, ◌≡◌, refl, true, false, none, List, [], ◌∷◌, String, filter, arith}
use bitmancer.Prelude.Sets.{contains}
use bitmancer.Courier.{fingerprint, is_expired}
use bitmancer.Mailbox.{
  Mailbox, favourite, verified, accepted, accept, accept_pruned, accept_new, prune, refresh,
  in_date,
}
use bitmancer.Mailbox.Shelf.{IsShelf}
use bitmancer.Mailbox.Deposits.{depositing, pruning, wiping, switching, run, run-IsShelf}
use bitmancer.Mailbox.Favourites.{favourites, stranger_spares_favourites}
use bitmancer.Tests.Courier.{letter}

abbrev same_bytes : List ℕ → List ℕ
same_bytes bytes = bytes

abbrev named : List ℕ → String
named bytes = "mail"

-- An open shelf with a letter of a favourite that is out of date at 6000.
abbrev shelf : Mailbox
shelf = record {
  enabled = true;
  held = record { envelope = letter; depositor = "ann"; tier = favourite; stored_at_ms = 10 } ∷ [];
  has_path = false;
  delivered = 0;
  file = none;
}

two_held-IsShelf : IsShelf same_bytes named shelf.held
two_held-IsShelf = record {
  few = omega arith;
  few_strangers = omega arith;
  shares = λ d. ground arith;
  once = (unfold contains in refl, tt);
}

run-IsShelf_example :
    IsShelf same_bytes named
      (run same_bytes named
        (depositing letter "bob" verified 20 ∷ switching false ∷ pruning 30 ∷ wiping ∷ [])
        shelf).held
run-IsShelf_example =
    run-IsShelf same_bytes named
      (depositing letter "bob" verified 20 ∷ switching false ∷ pruning 30 ∷ wiping ∷ []) shelf
      two_held-IsShelf

stranger_accepted :
    (accept same_bytes named (record letter { expiry_ms = 9000 }) "bob" verified 6000 shelf).1
    ≡ accepted
unfolding accept accept_pruned accept_new prune refresh fingerprint is_expired
stranger_accepted = refl

stranger_spares_favourites_example :
    favourites
      (accept same_bytes named
        (record letter { expiry_ms = 9000 })
        "bob"
        verified
        6000
        shelf).0.held
    ≡ favourites (filter (in_date 6000) shelf.held)
stranger_spares_favourites_example =
    stranger_spares_favourites same_bytes named (record letter { expiry_ms = 9000 }) "bob" 6000
      shelf stranger_accepted
