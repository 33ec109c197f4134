-- ===== src/Examples/Server.antt =====
-- Freelists, libraries and repositories.
use auks.Base.{ℕ, ◌≡◌, refl, true, arith}
use auks.Base.Decimal.{decimal}
use auks.Freelist.{Item, extract, release}
use auks.Freelist.Ownership.{Extracts, extract-Extracts}
use auks.Freelist.Release.{Releases, release-Releases}
use auks.Library.{get_item_nolock, remove_item_nolock, add_item_nolock}
use auks.Library.View.{
  Gets, Removes, Adds, get_item_nolock-Gets, remove_item_nolock-Removes, add_item_nolock-Adds,
}
use auks.Repo.{get_nolock, remove_nolock, add_nolock}
use auks.Repo.Uids.{decimal-IsKey, uid_str_injective}
use auks.Repo.Contents.{Finds, Discards, get_nolock-Finds, remove_nolock-Discards}
use auks.Repo.Replace.{Puts, add_nolock-Puts}
use auks.Examples.Values.{
  heap, heap-HasMemory, cred, freelist, freelist-IsStocked, one_cred, one_cred-IsSound, host,
}

abbrev item : Item
item = record { depth = 0; index = 2 }

extract-Extracts_example : Extracts 160 freelist (extract 160 freelist)
extract-Extracts_example = extract-Extracts 160 freelist freelist-IsStocked.well_formed

release-Releases_example : Releases 0 2 freelist (release item freelist)
release-Releases_example = release-Releases item freelist freelist-IsStocked.well_formed

get_item_nolock-Gets_example :
    Gets
      (decimal 1000)
      one_cred.library
      (get_item_nolock 32960 true (decimal 1000) one_cred.library)
get_item_nolock-Gets_example =
    get_item_nolock-Gets 32960 true (omega arith) heap-HasMemory (decimal 1000) one_cred.library
      one_cred-IsSound.library

remove_item_nolock-Removes_example :
    Removes
      (decimal 1000)
      one_cred.library
      (remove_item_nolock 32960 true (decimal 1000) one_cred.library)
remove_item_nolock-Removes_example =
    remove_item_nolock-Removes 32960 true (omega arith) heap-HasMemory (decimal 1000)
      one_cred.library (decimal-IsKey 1000) one_cred-IsSound.library

add_item_nolock-Adds_example :
    Adds true
      (decimal 1000)
      cred
      one_cred.library
      (add_item_nolock 32960 true (decimal 1000) cred one_cred.library)
add_item_nolock-Adds_example =
    add_item_nolock-Adds 32960 true (omega arith) heap-HasMemory (decimal 1000) cred
      one_cred.library (decimal-IsKey 1000) one_cred-IsSound.library

abbrev uid : ℕ
uid = 1000

uid_str_injective_example : uid ≡ uid
uid_str_injective_example = uid_str_injective uid uid (omega arith) (omega arith) refl

get_nolock-Finds_example : Finds 1000 one_cred (get_nolock host 1000 one_cred)
get_nolock-Finds_example = get_nolock-Finds host refl heap-HasMemory 1000 one_cred one_cred-IsSound

remove_nolock-Discards_example : Discards 1000 one_cred (remove_nolock host 1000 one_cred)
remove_nolock-Discards_example =
    remove_nolock-Discards host refl heap-HasMemory 1000 one_cred (omega arith) one_cred-IsSound

add_nolock-Puts_example : Puts cred one_cred (add_nolock host cred one_cred)
add_nolock-Puts_example =
    add_nolock-Puts host refl refl heap-HasMemory cred one_cred (omega arith) one_cred-IsSound
