-- ===== src/Programs/Shipped.antt =====
-- What a work ships to a host, and that it was written before.
use mathlib.Core.List.{Mem, mem-append_left, mem-append_right, mem-cons_self}
use cloudnative.Base.{
  String, ◌==◌, eq_iff, Bool, true, false, is_some, some, Option, List, [], ◌∷◌, ◌++◌, All-map,
  lookup, lookup-insert, or_default, ◌≡◌, ◌≢◌, refl, sym, ap, ◌∙◌, subst, inl, inr, Bool-cases,
  if◌then◌else◌,
}
use cloudnative.Base.Text.{concat}
use cloudnative.ListMaps.Members.{AllLists, add_to_list_map-AllLists, lookup-add_to_list_map}
use cloudnative.Scripts.{Work, write_file, add_to_files_list_map}

-- A file of this name was written below clustermgr/.
abbrev pub IsWritten : Work → String → Type 0
IsWritten w fname = is_some (lookup fname w.written) ≡ true

-- Every file that is shipped was written.
abbrev pub AllWritten : Work → Type 0
AllWritten w = AllLists (λ (f : String × String). IsWritten w f.0) w.files

abbrev pub files_at : Work → String → List (String × String)
files_at w ip = or_default [] (lookup ip w.files)

is_some-if {ℓ} :
    {A : Type ℓ} (b : Bool) (a : A) (o : Option A)
    → is_some o ≡ true
    → is_some (if b then some a else o) ≡ true
is_some-if true a o h = refl
is_some-if false a o h = h

pub write_file-IsWritten :
    (fname : String) (text : List String) (w : Work) → IsWritten (write_file fname text w) fname
unfolding write_file
write_file-IsWritten fname text w =
    rw (lookup-insert fname fname (concat text) w.written) (rw ((eq_iff fname fname).1 refl) refl)

write_file-keeps :
    (fname : String) (text : List String) (w : Work) (other : String)
    → IsWritten w other
    → IsWritten (write_file fname text w) other
unfolding write_file
write_file-keeps fname text w other h =
    rw (lookup-insert fname other (concat text) w.written) (is_some-if (fname == other) _ _ h)

default-if {ℓ} :
    {A : Type ℓ} (b : Bool) (xs : List A) (o : Option (List A))
    → or_default [] (if b then some xs else o) ≡ (if b then xs else or_default [] o)
default-if true xs o = refl
default-if false xs o = refl

files_at-add_to_files_list_map :
    (ip fname target : String) (w : Work) (host : String)
    → files_at (add_to_files_list_map ip fname target w) host
      ≡ (if ip == host then files_at w ip ++ ((fname, target) ∷ []) else files_at w host)
unfolding add_to_files_list_map
files_at-add_to_files_list_map ip fname target w host =
    ap (or_default []) (lookup-add_to_list_map w.files ip host (fname, target))
    ∙ default-if (ip == host) _ _

pub mem_new :
    (ip fname target : String) (w : Work)
    → Mem (fname, target) (files_at (add_to_files_list_map ip fname target w) ip)
mem_new ip fname target w =
    subst (Mem (fname, target))
      (sym (
        files_at-add_to_files_list_map ip fname target w ip
        ∙ ap (λ b. if b then files_at w ip ++ ((fname, target) ∷ []) else files_at w ip)
            ((eq_iff ip ip).1 refl)))
      (mem-append_right (files_at w ip) mem-cons_self)

mem_kept :
    (ip fname target : String) (w : Work) (host : String) (f : String × String)
    → Mem f (files_at w host)
    → Mem f (files_at (add_to_files_list_map ip fname target w) host)
mem_kept ip fname target w host f m =
    subst (Mem f) (sym (files_at-add_to_files_list_map ip fname target w host))
      (elim (Bool-cases (ip == host)) [
        | inl same ↦ rw same (
            mem-append_left ((fname, target) ∷ [])
              (subst (λ h. Mem f (files_at w h)) (sym ((eq_iff ip host).0 same)) m))
        | inr other ↦ rw other m
      ])

-- A file is written and shipped.
pub ship-AllWritten :
    (ip fname target : String) (text : List String) (w : Work)
    → AllWritten w
    → AllWritten (add_to_files_list_map ip fname target (write_file fname text w))
unfolding add_to_files_list_map write_file
ship-AllWritten ip fname target text w all =
    add_to_list_map-AllLists (λ (f : String × String). IsWritten (write_file fname text w) f.0)
      w.files ip (fname, target)
      (λ key fs h.
        All-map (λ (f : String × String). IsWritten w f.0)
          (λ (f : String × String). IsWritten (write_file fname text w) f.0) fs
          (λ f k. write_file-keeps fname text w f.0 k) (all key fs h))
      (write_file-IsWritten fname text w)

-- A file that was written is shipped once more.
pub again-AllWritten :
    (ip fname target : String) (w : Work)
    → IsWritten w fname
    → AllWritten w
    → AllWritten (add_to_files_list_map ip fname target w)
unfolding add_to_files_list_map
again-AllWritten ip fname target w written all =
    add_to_list_map-AllLists (λ (f : String × String). IsWritten w f.0) w.files ip (fname, target)
      all written

-- What a file that was just written holds.
pub lookup-write_file :
    (fname : String) (text : List String) (w : Work)
    → lookup fname (write_file fname text w).written ≡ some (concat text)
unfolding write_file
lookup-write_file fname text w =
    lookup-insert fname fname (concat text) w.written
    ∙ ap (λ b. if b then some (concat text) else lookup fname w.written)
        ((eq_iff fname fname).1 refl)

-- A file of this name is shipped to the host under a name below the base directory, with that text.
abbrev pub Holds : Work → String → String → String → List String → Type 0
Holds w ip name target text =
    (lookup name w.written ≡ some (concat text)) × Mem (name, target) (files_at w ip)

pub ship-Holds :
    (ip name target : String) (text : List String) (w : Work)
    → Holds (add_to_files_list_map ip name target (write_file name text w)) ip name target text
unfolding add_to_files_list_map
ship-Holds ip name target text w =
    (lookup-write_file name text w, mem_new ip name target (write_file name text w))

pub Holds-add_to_files_list_map :
    (ip fname other : String) (w : Work) (host name target : String) (text : List String)
    → Holds w host name target text
    → Holds (add_to_files_list_map ip fname other w) host name target text
unfolding add_to_files_list_map
Holds-add_to_files_list_map ip fname other w host name target text h =
    (h.0, mem_kept ip fname other w host (name, target) h.1)

-- A file of another name leaves it as it is.
pub Holds-write_file :
    (fname : String) (more : List String) (w : Work) (host name target : String)
    (text : List String)
    → name ≢ fname
    → Holds w host name target text
    → Holds (write_file fname more w) host name target text
unfolding write_file
Holds-write_file fname more w host name target text other h = (
  lookup-insert fname name (concat more) w.written ∙ (elim (Bool-cases (fname == name)) [
    | inl same ↦ absurd (other (sym ((eq_iff fname name).0 same)))
    | inr differ ↦ rw differ h.0
  ]),
  h.1,
)
