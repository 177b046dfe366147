-- ===== src/Disk/Listing/Paths.antt =====
-- The directory paths that `parse_sub` of a3/disklist.c prints, against the directory tree.
use csc.Base.{
  ℕ, zero, suc, ◌+◌, ◌*◌, ◌≡◌, refl, ap, ap₂, sym, subst, ◌∙◌, List, [], ◌∷◌, ◌++◌, append-nil,
  append_assoc, inl, inr, Bool-cases, leb, leb→le, leb→lt, ltb, length, Run, ok, ◌>>=◌, Ensures,
  returns, faults, runs_out, Ensures-self, Ensures-bind, Ensures-value,
}
use csc.Disk.Image.{Image, sector_size}
use csc.Disk.Fat.{get_fat_entry}
use csc.Disk.Entry.{path_line, Kind, skipped, file, directory, entry_kind, copy_name, terminate}
use csc.Disk.Forest.{
  Forest, empty, a_file, a_directory, append, Place, chain, slots, Shows, chain_end, sector,
  no_slots, skip, one_file, one_directory,
}
use csc.Disk.Listing.Lines.{path_lines, path_lines-append, print_sectors-NoPaths}
use csc.Disk.Listing.{Walk, str_cat, walk_kind, walk_slots, both_loops, walk_sectors, parse_sub}

abbrev pub join : List (List ℕ) → List ℕ
join [] = []
join (n ∷ ns) = n ++ join ns

-- The paths that come about when each name is appended to one path that is never cut back.
abbrev pub running : List ℕ → List (List ℕ) → List (List ℕ)
running path [] = []
running path (n ∷ ns) = (path ++ n) ∷ running (path ++ n) ns

-- The name of the directory at offset `e`, with a slash.
unfoldable pub dir_name : Image → ℕ → ℕ → Run (List ℕ)
dir_name img room e = do name ← copy_name img e 11; terminate room (name ++ (b'/' ∷ []))

-- The names of all directories of a tree, each in front of those below it.
abbrev pub Named : Image → ℕ → Forest → List (List ℕ) → Type 0
Named img room empty ns = ns ≡ []
Named img room (a_file e f) ns = Named img room f ns
Named img room (a_directory e c f) ns =
    (n : List ℕ) × (ks : List (List ℕ)) × (ms : List (List ℕ)) × (dir_name img room e ≡ ok n)
    × Named img room c ks
    × Named img room f ms
    × (ns ≡ n ∷ (ks ++ ms))

join-append : (xs ys : List (List ℕ)) → join (xs ++ ys) ≡ join xs ++ join ys
join-append [] ys = refl
join-append (x ∷ xs) ys = simp (join-append xs ys, append_assoc)

running-append :
    (path : List ℕ) (xs ys : List (List ℕ))
    → running path (xs ++ ys) ≡ running path xs ++ running (path ++ join xs) ys
running-append path [] ys = rw append-nil
running-append path (x ∷ xs) ys = simp (running-append (path ++ x) xs ys, append_assoc)

module _ (img : Image) (room : ℕ) where
  Named-append :
      (f g : Forest) (ns ms : List (List ℕ))
      → Named img room f ns
      → Named img room g ms
      → Named img room (append f g) (ns ++ ms)
  Named-append empty g ns ms p q = rw p q
  Named-append (a_file e f) g ns ms p q = Named-append f g ns ms p q
  Named-append (a_directory e c f) g ns ms (n, ks, ls, hn, hk, hl, eq) q =
      (n, ks, ls ++ ms, hn, hk, Named-append f g ls ms hl q, simp (eq, append_assoc))

-- A walk from a place: the tree that the image shows there, the paths printed, the path left.
pub record Walked (img : Image) (room table : ℕ) (place : Place) (path : List ℕ) (w : Walk)
    : Type 0 where
  pub forest : Forest
  pub names : List (List ℕ)
  pub shown : Shows img table place forest
  pub named : Named img room forest names
  pub printed : path_lines w.0 ≡ running path names
  pub left : w.1 ≡ path ++ join names

module _ (img : Image) (room table : ℕ) where
  str_cat-eq : (path temp : List ℕ) → Ensures (λ r. r ≡ path ++ temp) (str_cat room path temp)
  unfolding str_cat
  str_cat-eq path temp = elim (Bool-cases (ltb (length path + length temp) room)) [
    | inl fits ↦ rw fits (returns refl)
    | inr full ↦ rw full faults
  ]

  -- Two walks, one behind the other.
  Walked-append :
      (path : List ℕ) (ns ms : List (List ℕ)) (v w : Walk)
      → path_lines v.0 ≡ running path ns
      → v.1 ≡ path ++ join ns
      → path_lines w.0 ≡ running v.1 ms
      → w.1 ≡ v.1 ++ join ms
      → (path_lines (v.0 ++ w.0) ≡ running path (ns ++ ms)) × (w.1 ≡ path ++ join (ns ++ ms))
  Walked-append path ns ms v w a b c d = (
    path_lines-append v.0 w.0
        ∙ ap₂ ◌++◌ a (c ∙ ap (λ p. running p ms) b)
        ∙ sym (running-append path ns ms),
    d ∙ ap (λ p. p ++ join ms) b ∙ simp (join-append ns ms, append_assoc),
  )

  module _ (sub : ℕ → List ℕ → Run Walk)
      (sound : (flc : ℕ) (path : List ℕ)
        → Ensures (Walked img room table (chain flc) path) (sub flc path)) where
    slot-Walked :
        (k e : ℕ) (path : List ℕ) (kind : Kind)
        → entry_kind img e ≡ ok kind
        → ((p : List ℕ)
            → Ensures
                (Walked img room table (slots k (e + 32)) p)
                (walk_slots sub k img room (e + 32) p))
        → Ensures (Walked img room table (slots (suc k) e) path) (
            walk_kind sub img room e kind path >>= λ first.
            walk_slots sub k img room (e + 32) first.1 >>= λ rest. ok (first.0 ++ rest.0, rest.1))
    unfolding walk_kind dir_name
    slot-Walked k e path skipped kd ih = Ensures-bind (ih path) λ w h. returns (record {
      forest = h.forest;
      names = h.names;
      shown = skip kd h.shown;
      named = h.named;
      printed = h.printed;
      left = h.left;
    })
    slot-Walked k e path file kd ih = Ensures-bind (ih path) λ w h. returns (record {
      forest = a_file e h.forest;
      names = h.names;
      shown = one_file kd h.shown;
      named = h.named;
      printed = h.printed;
      left = h.left;
    })
    slot-Walked k e path (directory flc) kd ih =
        Ensures-bind
          {P = λ v.
            (n : List ℕ) × (c : Walk) × (dir_name img room e ≡ ok n)
            × Walked img room table (chain flc) (path ++ n) c
            × (v ≡ (path_line (path ++ n) ∷ c.0, c.1))}
          (Ensures-bind (Ensures-self (copy_name img e 11)) λ a ha.
            Ensures-bind (Ensures-self (terminate room (a ++ (b'/' ∷ [])))) λ n hn.
              Ensures-bind (str_cat-eq path n) λ p hp. Ensures-bind (sound flc p) λ c hc.
                returns
                  (n, c, rw ha hn, subst (λ p. Walked img room table (chain flc) p c) hp hc, rw hp))
          λ v (n, c, hn, hc, hv). Ensures-bind (ih v.1) λ w h.
            let both =
              Walked-append path (n ∷ hc.names) h.names v w
                (ap (λ (u : Walk). path_lines u.0) hv ∙ ap (λ r. (path ++ n) ∷ r) hc.printed)
                (ap (λ (u : Walk). u.1) hv ∙ hc.left ∙ append_assoc path n (join hc.names))
                h.printed h.left in
            returns (record {
              forest = a_directory e hc.forest h.forest;
              names = n ∷ (hc.names ++ h.names);
              shown = one_directory kd hc.shown h.shown;
              named = (n, hc.names, h.names, hn, hc.named, h.named, refl);
              printed = both.0;
              left = both.1;
            })

    slots-Walked :
        (k e : ℕ) (path : List ℕ)
        → Ensures (Walked img room table (slots k e) path) (walk_slots sub k img room e path)
    unfolding walk_slots
    slots-Walked zero e path = returns (record {
      forest = empty;
      names = [];
      shown = no_slots;
      named = refl;
      printed = refl;
      left = sym (append-nil path);
    })
    slots-Walked (suc k) e path =
        Ensures-bind (Ensures-self (entry_kind img e))
          λ kind kd. slot-Walked k e path kind kd (slots-Walked k (e + 32))

  both_loops-Walked :
      (fuel : ℕ) (second : ℕ → List ℕ → Run Walk)
      → ((flc : ℕ) (path : List ℕ)
          → Ensures (Walked img room table (chain flc) path) (second flc path))
      → (flc : ℕ) (path : List ℕ)
      → Ensures
          (Walked img room table (chain flc) path)
          (both_loops fuel second img room table flc path)
  unfolding both_loops
  both_loops-Walked fuel second sound flc path =
      Ensures-bind (print_sectors-NoPaths img room fuel table flc) λ l none.
        Ensures-bind (sound flc path) λ w h. returns (record {
          forest = h.forest;
          names = h.names;
          shown = h.shown;
          named = h.named;
          printed = path_lines-append l w.0 ∙ rw none h.printed;
          left = h.left;
        })

  walk_sectors-Walked :
      (fuel loc : ℕ) (path : List ℕ)
      → Ensures (Walked img room table (chain loc) path) (walk_sectors fuel img room table loc path)
  unfolding walk_sectors
  walk_sectors-Walked zero loc path = runs_out
  walk_sectors-Walked (suc fuel) loc path = elim (Bool-cases (leb loc 0xff0)) [
    | inl more ↦
        let sub =
          both_loops-Walked fuel (walk_sectors fuel img room table) (walk_sectors-Walked fuel) in
        rw more (
          Ensures-bind (slots-Walked _ sub 16 ((31 + loc) * sector_size) path) λ v h.
            Ensures-bind (Ensures-self (get_fat_entry img table loc)) λ next link.
              Ensures-bind (walk_sectors-Walked fuel next v.1) λ w g.
                let both =
                  Walked-append path h.names g.names v w h.printed h.left g.printed g.left in
                returns (record {
                  forest = append h.forest g.forest;
                  names = h.names ++ g.names;
                  shown = sector (leb→le loc 0xff0 more) h.shown link g.shown refl;
                  named = Named-append img room h.forest g.forest h.names g.names h.named g.named;
                  printed = both.0;
                  left = both.1;
                }))
    | inr done ↦ rw done (
        returns (record {
          forest = empty;
          names = [];
          shown = chain_end (leb→lt loc 0xff0 done);
          named = refl;
          printed = refl;
          left = sym (append-nil path);
        }))
  ]

-- Whatever `parse_sub` of disklist returns: the image shows a tree from that chain on, and the path
-- printed for each of its directories is `dir_path` followed by the names of all directories that
-- were entered before it and its own, also of those that do not contain it. `dir_path` is left
-- with the names of all directories of the tree behind it.
pub parse_sub-Walked :
    (img : Image) (room table fuel flc : ℕ) (path : List ℕ) {w : Walk}
    → parse_sub fuel img room table flc path ≡ ok w
    → Walked img room table (chain flc) path w
unfolding parse_sub
parse_sub-Walked img room table fuel flc path h =
    Ensures-value
      (both_loops-Walked img room table fuel (walk_sectors fuel img room table)
        (walk_sectors-Walked img room table fuel) flc path)
      h
