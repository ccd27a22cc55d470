-- ===== src/Tests/Blocks.antt =====
-- The theorems on the block directory, at a store in memory.
use conserve.Common.{[], ◌∷◌, Option, none, some, false, str, str_eq, ◌≡◌, ◌≢◌, refl}
use conserve.Common.Results.{Result, ok}
use conserve.Entry.{BlockHash}
use conserve.Transport.{Bytes, join}
use conserve.BlockDir.{
  BlockDir, BackupStats, block_relpath, open_dir, contains, store_or_deduplicate, get_block_content,
  delete_block, path_of, seen, BlockError,
}
use conserve.BlockDir.Cached.{
  CacheIsValid, Sound, get_block_content-Sound, store_or_deduplicate-CacheIsValid,
}
use conserve.BlockDir.Forgotten.{delete_block-forgotten}
use conserve.BlockDir.Stored.{IsIntact, CachesAgree, store_or_deduplicate-read}
use conserve.BlockDir.Healing.{Unhealed, store_or_deduplicate-not_healed}
use conserve.Tests.Store.{Files, no_files, put, memory, memory-IsLawful}
use conserve.Tests.Codec.{plain_lib, plain_lib-IsFaithful, keep, keep-IsLru}

abbrev Cache : Type 0 → Type 0
Cache V = BlockHash → Option V

abbrev fresh : BlockDir (Cache Bytes) (Cache (Unit {0}))
fresh = record {
  dir = str "d";
  stats = record {
    read_blocks = 0;
    read_block_compressed_bytes = 0;
    read_block_uncompressed_bytes = 0;
    cache_hit = 0;
  };
  cache = λ k. none;
  exists = λ k. none;
}

abbrev no_stats : BackupStats
no_stats = record {
  deduplicated_blocks = 0;
  deduplicated_bytes = 0;
  written_blocks = 0;
  combined_blocks = 0;
  empty_files = 0;
  small_combined_files = 0;
  uncompressed_bytes = 0;
  compressed_bytes = 0;
}

abbrev stuff : Bytes
stuff = str "stuff"

fresh-CacheIsValid :
    CacheIsValid memory plain_lib (keep Bytes) (keep (Unit {0})) (keep-IsLru Bytes) fresh.cache
fresh-CacheIsValid = record { hashes = λ h b g. cc }

get_block_content-Sound_example :
    Sound memory plain_lib
      (keep Bytes)
      (keep (Unit {0}))
      (keep-IsLru Bytes)
      stuff
      (get_block_content memory plain_lib (keep Bytes) (keep (Unit {0})) no_files fresh stuff)
get_block_content-Sound_example =
    get_block_content-Sound memory plain_lib (keep Bytes) (keep (Unit {0})) (keep-IsLru Bytes)
      no_files fresh stuff fresh-CacheIsValid

store_or_deduplicate-CacheIsValid_example :
    CacheIsValid memory plain_lib
      (keep Bytes)
      (keep (Unit {0}))
      (keep-IsLru Bytes)
      (store_or_deduplicate memory plain_lib
        (keep Bytes)
        (keep (Unit {0}))
        no_files
        fresh
        stuff
        no_stats).1.cache
store_or_deduplicate-CacheIsValid_example =
    store_or_deduplicate-CacheIsValid memory plain_lib (keep Bytes) (keep (Unit {0}))
      (keep-IsLru Bytes) no_files fresh stuff no_stats fresh-CacheIsValid

-- A directory that has seen the block whose file is in the store.
abbrev known : BlockDir (Cache Bytes) (Cache (Unit {0}))
known = record fresh { exists = λ k. some tt }

abbrev filled : Files
filled = put no_files (join (str "d") (block_relpath plain_lib stuff)) (some (1 ∷ stuff))

abbrev emptied : Files
emptied = put filled (path_of memory plain_lib (keep Bytes) (keep (Unit {0})) known stuff) none

abbrev forgot : BlockDir (Cache Bytes) (Cache (Unit {0}))
forgot = record known {
  cache = (keep Bytes).pop known.cache stuff;
  exists = (keep (Unit {0})).pop known.exists stuff;
}

stuff_deleted :
    delete_block memory plain_lib (keep Bytes) (keep (Unit {0})) filled known stuff
    ≡ (ok tt, forgot, emptied)
unfolding delete_block
stuff_deleted = refl

delete_block-forgotten_example :
    CacheIsValid memory plain_lib (keep Bytes) (keep (Unit {0})) (keep-IsLru Bytes) forgot.cache
    × (contains memory plain_lib (keep Bytes) (keep (Unit {0})) emptied forgot stuff
        ≡ seen memory plain_lib (keep Bytes) (keep (Unit {0})) forgot stuff (
            memory.metadata emptied
              (path_of memory plain_lib (keep Bytes) (keep (Unit {0})) forgot stuff)))
    × (◌≡◌ {A = Result BlockError (Unit {0})} (ok tt) (ok tt)
        → ((contains memory plain_lib (keep Bytes) (keep (Unit {0})) emptied forgot stuff).0
            ≡ ok false)
          × ((b : Bytes)
              → (get_block_content memory plain_lib
                  (keep Bytes)
                  (keep (Unit {0}))
                  emptied
                  forgot
                  stuff).0
                ≢ ok b))
delete_block-forgotten_example =
    delete_block-forgotten memory plain_lib (keep Bytes) (keep (Unit {0})) (keep-IsLru Bytes)
      (keep-IsLru (Unit {0})) memory-IsLawful filled emptied known forgot stuff (ok tt)
      (record { hashes = λ h b g. cc }) stuff_deleted

fresh-IsIntact :
    IsIntact memory plain_lib
      (keep Bytes)
      (keep (Unit {0}))
      memory-IsLawful
      plain_lib-IsFaithful
      (keep-IsLru Bytes)
      no_files
      (str "d")
fresh-IsIntact h m e = cc

fresh-CachesAgree :
    CachesAgree memory plain_lib
      (keep Bytes)
      (keep (Unit {0}))
      memory-IsLawful
      plain_lib-IsFaithful
      (keep-IsLru Bytes)
      no_files
      fresh
fresh-CachesAgree h e = cc

stuff_stored :
    (store_or_deduplicate memory plain_lib
      (keep Bytes)
      (keep (Unit {0}))
      no_files
      fresh
      stuff
      no_stats).0
    ≡ ok stuff
unfolding store_or_deduplicate
stuff_stored = refl

store_or_deduplicate-read_example :
    (stuff ≡ stuff)
    × ((get_block_content memory plain_lib
          (keep Bytes)
          (keep (Unit {0}))
          (store_or_deduplicate memory plain_lib
            (keep Bytes)
            (keep (Unit {0}))
            no_files
            fresh
            stuff
            no_stats).3
          (open_dir memory plain_lib (keep Bytes) (keep (Unit {0})) (str "d"))
          stuff).0
        ≡ ok stuff)
store_or_deduplicate-read_example =
    store_or_deduplicate-read memory plain_lib (keep Bytes) (keep (Unit {0})) memory-IsLawful
      plain_lib-IsFaithful (keep-IsLru Bytes) no_files fresh stuff no_stats stuff fresh-IsIntact
      fresh-CachesAgree (λ b e. e) stuff_stored

-- The block's file is there, with nothing in it.
abbrev truncated : Files
truncated = put no_files (str "d/stu/stuff") (some [])

truncated_empty :
    memory.read_file truncated (join (str "d") (block_relpath plain_lib stuff)) ≡ ok []
unfolding join block_relpath str_eq
truncated_empty = refl

store_or_deduplicate-not_healed_example :
    ((contains memory plain_lib
        (keep Bytes)
        (keep (Unit {0}))
        truncated
        (open_dir memory plain_lib (keep Bytes) (keep (Unit {0})) (str "d"))
        stuff).0
      ≡ ok false)
    × Unhealed memory plain_lib
        (keep Bytes)
        (keep (Unit {0}))
        memory-IsLawful
        plain_lib-IsFaithful
        (keep-IsLru Bytes)
        (keep-IsLru (Unit {0}))
        (str "d")
        stuff
        no_stats
        (store_or_deduplicate memory plain_lib
          (keep Bytes)
          (keep (Unit {0}))
          truncated
          (open_dir memory plain_lib (keep Bytes) (keep (Unit {0})) (str "d"))
          stuff
          no_stats)
store_or_deduplicate-not_healed_example =
    store_or_deduplicate-not_healed memory plain_lib (keep Bytes) (keep (Unit {0})) memory-IsLawful
      plain_lib-IsFaithful (keep-IsLru Bytes) (keep-IsLru (Unit {0})) truncated (str "d") stuff
      (1 ∷ stuff) no_stats truncated_empty refl refl
