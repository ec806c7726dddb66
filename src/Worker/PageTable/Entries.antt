-- ===== src/Worker/PageTable/Entries.antt =====
-- What the operations of worker/src/memory/page_table.c do to a table seen as a map from page
-- numbers to entries.
use tp_sistemas_operativos.Base.{
  lookup_lt, lookup_ge, lookup-set, lookup-append_lt, lookup-append_ge, lookup-take, ℕ, zero, suc,
  ◌+◌, ◌-◌, ◌≡◌, ◌≤◌, ◌<◌, ◌≢◌, refl, sym, ap, ◌∙◌, Bool, true, false, Option, none, some, List,
  ◌++◌, length, get_elem?, set, ltb, ◌==◌, arith, length-append, length-set, length-take, if_elim,
  ltb→lt, ltb-false→le, ==_iff,
}
use tp_sistemas_operativos.Worker.PageTable.{
  Entry, PageTable, blank, blank_entries, pt_create, pt_resize, resized, change_entry, pt_map,
  pt_unmap, mapped, unmapped,
}

-- The entry of a page.
abbrev pub view : PageTable → ℕ → Option Entry
view pt = get_elem? pt.entries

-- The array has an entry for each page, and there is a page.
pub record IsValid (pt : PageTable) : Type 0 where
  pub sized : length pt.entries ≡ pt.page_count
  pub nonempty : pt.page_count ≢ 0

length-blank_entries : (i n : ℕ) → length (blank_entries i n) ≡ n
unfolding blank_entries
length-blank_entries i zero = refl
length-blank_entries i (suc n) = ap suc (length-blank_entries (i + 1) n)

lookup-blank_entries : (i n j : ℕ) → j < n → get_elem? (blank_entries i n) j ≡ some (blank (i + j))
unfolding blank_entries
lookup-blank_entries i zero j h = absurd (omega arith)
lookup-blank_entries i (suc n) zero h = ap (λ k. some (blank k)) (omega arith)
lookup-blank_entries i (suc n) (suc j) h =
    lookup-blank_entries (i + 1) n j (omega arith) ∙ ap (λ k. some (blank k)) (omega arith)

-- The call finds the entry of the page, replaces it, and changes nothing else.
pub record Changes (pt : PageTable) (page_number : ℕ) (f : Entry → Entry)
    (r : Option (Bool × PageTable)) : Type 0 where
  pub entry : Entry
  pub after : PageTable
  pub returns : r ≡ some (true, after)
  pub found : view pt page_number ≡ some entry
  pub replaced : view after page_number ≡ some (f entry)
  pub others : (j : ℕ) → j ≢ page_number → view after j ≡ view pt j
  pub same_count : after.page_count ≡ pt.page_count
  pub same_size : after.page_size ≡ pt.page_size
  pub valid : IsValid after

module _ (pt : PageTable) (v : IsValid pt) (page_number : ℕ) (f : Entry → Entry) where
  pub change_entry-Changes :
      page_number < pt.page_count → Changes pt page_number f (change_entry pt page_number f)
  unfolding change_entry
  change_entry-Changes h =
      let inside : page_number < length pt.entries = omega (arith, v.sized) in
      let (e, found) = lookup_lt pt.entries page_number inside in
      record {
        entry = e;
        after = record pt { entries = set pt.entries page_number (f e) };
        returns = ground (arith, found);
        found = found;
        replaced = ground (arith, lookup-set pt.entries page_number page_number (f e) inside);
        others = λ j other. ground (arith, other, lookup-set pt.entries page_number j (f e) inside);
        same_count = refl;
        same_size = refl;
        valid = record {
          sized = length-set pt.entries page_number (f e) ∙ v.sized;
          nonempty = v.nonempty;
        };
      }

  pub change_entry_refused :
      pt.page_count ≤ page_number → change_entry pt page_number f ≡ some (false, pt)
  unfolding change_entry
  change_entry_refused h = ground arith

-- An entry that is clean in a frame, or clean out of one, and is otherwise another one.
pub record Places (frame : ℕ) (present : Bool) (old new : Entry) : Type 0 where
  pub in_frame : new.frame ≡ frame
  pub presence : new.present ≡ present
  pub clean : new.dirty ≡ false
  pub same_number : new.page_number ≡ old.page_number
  pub same_time : new.last_access_time ≡ old.last_access_time
  pub same_use : new.use_bit ≡ old.use_bit

-- The call succeeds, and nothing but the entry of the page changes.
pub record Placed (pt : PageTable) (page_number frame : ℕ) (present : Bool)
    (r : Option (Bool × PageTable)) : Type 0 where
  pub old : Entry
  pub new : Entry
  pub after : PageTable
  pub returns : r ≡ some (true, after)
  pub found : view pt page_number ≡ some old
  pub stored : view after page_number ≡ some new
  pub places : Places frame present old new
  pub others : (j : ℕ) → j ≢ page_number → view after j ≡ view pt j
  pub same_count : after.page_count ≡ pt.page_count
  pub same_size : after.page_size ≡ pt.page_size
  pub valid : IsValid after

-- A page beyond the table is refused, and the table stays as it is.
abbrev pub PlacedOrRefused : PageTable → ℕ → ℕ → Bool → Option (Bool × PageTable) → Type 0
PlacedOrRefused pt page_number frame present r =
    (page_number < pt.page_count → Placed pt page_number frame present r)
    × (pt.page_count ≤ page_number → r ≡ some (false, pt))

change_entry-PlacedOrRefused :
    (pt : PageTable) (page_number frame : ℕ) (present : Bool) (f : Entry → Entry)
    → IsValid pt
    → ((e : Entry) → Places frame present e (f e))
    → PlacedOrRefused pt page_number frame present (change_entry pt page_number f)
change_entry-PlacedOrRefused pt page_number frame present f v places = (
  λ h.
      let c = change_entry-Changes pt v page_number f h in
      record {
        old = c.entry;
        new = f c.entry;
        after = c.after;
        returns = c.returns;
        found = c.found;
        stored = c.replaced;
        places = places c.entry;
        others = c.others;
        same_count = c.same_count;
        same_size = c.same_size;
        valid = c.valid;
      },
  change_entry_refused pt v page_number f,
)

mapped-Places : (frame : ℕ) (e : Entry) → Places frame true e (mapped frame e)
mapped-Places frame e = record {
  in_frame = refl;
  presence = refl;
  clean = refl;
  same_number = refl;
  same_time = refl;
  same_use = refl;
}

unmapped-Places : (e : Entry) → Places 0 false e (unmapped e)
unmapped-Places e = record {
  in_frame = refl;
  presence = refl;
  clean = refl;
  same_number = refl;
  same_time = refl;
  same_use = refl;
}

-- A valid page table maps a page that it has to a frame: the entry is present and clean in that
-- frame and keeps its number, time of access and use bit, all other entries stay as they are, and
-- the table stays valid. A page beyond it is refused with -1, and nothing changes.
pub pt_map-Changes :
    (pt : PageTable) (page_number frame : ℕ)
    → IsValid pt
    → PlacedOrRefused pt page_number frame true (pt_map pt page_number frame)
unfolding pt_map
pt_map-Changes pt page_number frame v =
    change_entry-PlacedOrRefused pt page_number frame true (mapped frame) v (mapped-Places frame)

-- A valid page table takes a page that it has out of its frame: the entry is absent and clean in
-- frame 0 and keeps its number, time of access and use bit, all other entries stay as they are,
-- and the table stays valid. A page beyond it is refused with -1, and nothing changes.
pub pt_unmap-Changes :
    (pt : PageTable) (page_number : ℕ)
    → IsValid pt
    → PlacedOrRefused pt page_number 0 false (pt_unmap pt page_number)
unfolding pt_unmap
pt_unmap-Changes pt page_number v =
    change_entry-PlacedOrRefused pt page_number 0 false unmapped v unmapped-Places

-- The table has the new number of pages, the pages that it had and still has are as they were, and
-- its new pages are blank.
pub record Resized (pt : PageTable) (new_page_count : ℕ) (r : Bool × PageTable) : Type 0 where
  pub after : PageTable
  pub returns : r ≡ (true, after)
  pub count : after.page_count ≡ new_page_count
  pub valid : IsValid after
  pub same_size : after.page_size ≡ pt.page_size
  pub kept : (i : ℕ) → i < pt.page_count → i < new_page_count → view after i ≡ view pt i
  pub fresh : (i : ℕ) → pt.page_count ≤ i → i < new_page_count → view after i ≡ some (blank i)
  pub gone : (i : ℕ) → new_page_count ≤ i → view after i ≡ none

module _ (pt : PageTable) (v : IsValid pt) (new_page_count : ℕ) where
  added : List Entry
  added = blank_entries pt.page_count (new_page_count - pt.page_count)

  length-resized : length (resized pt new_page_count) ≡ new_page_count
  length-resized =
      if_elim (λ l. length l ≡ new_page_count) (ltb pt.page_count new_page_count)
        (λ more. omega (
          arith,
          ltb→lt pt.page_count new_page_count more,
          length-append pt.entries (blank_entries pt.page_count (new_page_count - pt.page_count)),
          length-blank_entries pt.page_count (new_page_count - pt.page_count),
          v.sized,
        ))
        (λ less. omega (
          arith,
          ltb-false→le pt.page_count new_page_count less,
          length-take new_page_count pt.entries,
          v.sized,
        ))

  resized_kept :
      (i : ℕ)
      → i < pt.page_count
      → i < new_page_count
      → get_elem? (resized pt new_page_count) i ≡ view pt i
  resized_kept i old new =
      if_elim (λ l. get_elem? l i ≡ view pt i) (ltb pt.page_count new_page_count)
        (λ _. lookup-append_lt pt.entries _ i (omega (arith, v.sized)))
        (λ _. lookup-take new_page_count pt.entries i new)

  added_lem :
      (i : ℕ)
      → pt.page_count ≤ i
      → i < new_page_count
      → get_elem? (pt.entries ++ added) i ≡ some (blank i)
  unfolding added
  added_lem i old new =
      ap (get_elem? (pt.entries ++ added)) (omega (arith, v.sized))
      ∙ lookup-append_ge pt.entries added (i - pt.page_count)
      ∙ lookup-blank_entries pt.page_count (new_page_count - pt.page_count) (i - pt.page_count)
          (omega arith)
      ∙ ap (λ k. some (blank k)) (omega arith)

  resized_fresh :
      (i : ℕ)
      → pt.page_count ≤ i
      → i < new_page_count
      → get_elem? (resized pt new_page_count) i ≡ some (blank i)
  unfolding added
  resized_fresh i old new =
      if_elim (λ l. get_elem? l i ≡ some (blank i)) (ltb pt.page_count new_page_count)
        (λ _. added_lem i old new)
        (λ less. absurd (omega (arith, ltb-false→le pt.page_count new_page_count less)))

  -- A valid page table whose memory is granted takes any number of pages but 0: it is valid
  -- again, the pages that it had and still has are as they were, its new pages are blank, and the
  -- pages beyond the new number are gone.
  pub pt_resize-Resized :
      new_page_count ≢ 0 → Resized pt new_page_count (pt_resize true pt new_page_count)
  unfolding pt_resize
  pt_resize-Resized h =
      if_elim (Resized pt new_page_count) (new_page_count == 0)
        (λ e. absurd (h ((==_iff new_page_count 0).0 e)))
        (λ _.
          if_elim (Resized pt new_page_count) (new_page_count == pt.page_count)
            (λ e. same ((==_iff new_page_count pt.page_count).0 e)) (λ _. other))
    where
      same : new_page_count ≡ pt.page_count → Resized pt new_page_count (true, pt)
      same e = record {
        after = pt;
        returns = refl;
        count = sym e;
        valid = v;
        same_size = refl;
        kept = λ i _ _. refl;
        fresh = λ i old new. absurd (omega arith);
        gone = λ i beyond. lookup_ge pt.entries i (omega (arith, v.sized));
      }

      other :
          Resized pt new_page_count
            (true, record pt { entries = resized pt new_page_count; page_count = new_page_count })
      other = record {
        after = _;
        returns = refl;
        count = refl;
        valid = record { sized = length-resized; nonempty = h };
        same_size = refl;
        kept = resized_kept;
        fresh = resized_fresh;
        gone = λ i beyond. lookup_ge (resized pt new_page_count) i (omega (arith, length-resized));
      }

-- A new table is valid, has the pages and the page size that were asked for, and its pages are
-- blank.
pub record Created (page_count page_size : ℕ) (r : Option PageTable) : Type 0 where
  pub table : PageTable
  pub returns : r ≡ some table
  pub valid : IsValid table
  pub count : table.page_count ≡ page_count
  pub size : table.page_size ≡ page_size
  pub all_blank : (i : ℕ) → i < page_count → view table i ≡ some (blank i)

-- With memory granted, a page table of a positive number of pages of a positive size is created:
-- it is valid, has the pages and the page size that were asked for, and its pages are blank.
pub pt_create-Created :
    (page_count page_size : ℕ)
    → page_count ≢ 0
    → page_size ≢ 0
    → Created page_count page_size (pt_create true page_count page_size)
unfolding pt_create
pt_create-Created page_count page_size hc hs = record {
  table = _;
  returns = ground (arith, hc, hs);
  valid = record { sized = length-blank_entries 0 page_count; nonempty = hc };
  count = refl;
  size = refl;
  all_blank = λ i h. lookup-blank_entries 0 page_count i h ∙ ap (λ k. some (blank k)) (omega arith);
}
