-- ===== src/KeyType.antt =====
-- The data types of keys, and the prefixes that tell them apart (THEO/datatype/datatype.go,
-- THEO/common.go). A `DataType` is a Go `int`, numbered by `iota`.
pub mod Trie
pub mod Match
pub mod BlockKey
use Prim.Native.Char.{code}
use Prim.Native.String.{String}
use theo_extension.Common.{ℕ, List, [], ◌∷◌}
use theo_extension.Common.Bytes.{Bytes}

abbrev pub DataType : Type 0
DataType = ℕ

abbrev pub unknown_type : DataType
unknown_type = 0

abbrev pub cht_root_type : DataType
cht_root_type = 1

abbrev pub cht_index_table_type : DataType
cht_index_table_type = 2

abbrev pub cht_table_type : DataType
cht_table_type = 3

abbrev pub bloom_trie_root_type : DataType
bloom_trie_root_type = 4

abbrev pub bloom_trie_index_type : DataType
bloom_trie_index_type = 5

abbrev pub bloom_trie_table_type : DataType
bloom_trie_table_type = 6

abbrev pub preimage_type : DataType
preimage_type = 7

abbrev pub config_type : DataType
config_type = 8

abbrev pub genesis_state_type : DataType
genesis_state_type = 9

abbrev pub clique_snapshot_type : DataType
clique_snapshot_type = 10

abbrev pub bloom_bits_index_type : DataType
bloom_bits_index_type = 11

abbrev pub header_type : DataType
header_type = 12

abbrev pub header_number_type : DataType
header_number_type = 13

abbrev pub block_body_type : DataType
block_body_type = 14

abbrev pub block_receipts_type : DataType
block_receipts_type = 15

abbrev pub transaction_lookup_metadata_type : DataType
transaction_lookup_metadata_type = 16

abbrev pub bloom_bits_type : DataType
bloom_bits_type = 17

abbrev pub header_total_difficulty_type : DataType
header_total_difficulty_type = 18

abbrev pub header_number_hash_mapping_type : DataType
header_number_hash_mapping_type = 19

abbrev pub snapshot_account_type : DataType
snapshot_account_type = 20

abbrev pub snapshot_storage_type : DataType
snapshot_storage_type = 21

abbrev pub code_type : DataType
code_type = 22

abbrev pub skeleton_header_type : DataType
skeleton_header_type = 23

abbrev pub trie_node_account_type : DataType
trie_node_account_type = 24

abbrev pub trie_node_storage_type : DataType
trie_node_storage_type = 25

abbrev pub state_id_lookup_type : DataType
state_id_lookup_type = 26

abbrev pub verkle_trie_type : DataType
verkle_trie_type = 27

abbrev pub database_version_type : DataType
database_version_type = 28

abbrev pub head_header_type : DataType
head_header_type = 29

abbrev pub head_block_type : DataType
head_block_type = 30

abbrev pub head_fast_block_type : DataType
head_fast_block_type = 31

abbrev pub head_finalized_block_type : DataType
head_finalized_block_type = 32

abbrev pub persistent_state_id_type : DataType
persistent_state_id_type = 33

abbrev pub last_pivot_type : DataType
last_pivot_type = 34

abbrev pub fast_trie_progress_type : DataType
fast_trie_progress_type = 35

abbrev pub snapshot_disabled_type : DataType
snapshot_disabled_type = 36

abbrev pub snapshot_root_type : DataType
snapshot_root_type = 37

abbrev pub snapshot_journal_type : DataType
snapshot_journal_type = 38

abbrev pub snapshot_generator_type : DataType
snapshot_generator_type = 39

abbrev pub snapshot_recovery_type : DataType
snapshot_recovery_type = 40

abbrev pub snapshot_sync_status_type : DataType
snapshot_sync_status_type = 41

abbrev pub skeleton_sync_status_type : DataType
skeleton_sync_status_type = 42

abbrev pub trie_journal_type : DataType
trie_journal_type = 43

abbrev pub transaction_index_tail_type : DataType
transaction_index_tail_type = 44

abbrev pub fast_transaction_lookup_limit_type : DataType
fast_transaction_lookup_limit_type = 45

abbrev pub bad_block_type : DataType
bad_block_type = 46

abbrev pub unclean_shutdown_type : DataType
unclean_shutdown_type = 47

abbrev pub transition_status_type : DataType
transition_status_type = 48

abbrev pub snap_sync_status_flag_type : DataType
snap_sync_status_flag_type = 49

abbrev pub light_client_update_type : DataType
light_client_update_type = 50

abbrev pub fixed_committee_root_type : DataType
fixed_committee_root_type = 51

abbrev pub sync_committee_type : DataType
sync_committee_type = 52

-- `[]byte("...")`: the prefixes are ASCII, so a code point is a byte.
abbrev pub codes : String → Bytes
codes String.[] = []
codes (String.◌∷◌ c s) = code c ∷ codes s

pub record KeyPrefixInfo : Type 0 where
  pub prefix : Bytes
  pub data_type : DataType

abbrev info : String → DataType → KeyPrefixInfo
info s d = record { prefix = codes s; data_type = d }

-- `keyPrefixes`, in the source's order.
abbrev pub key_prefixes : List KeyPrefixInfo
key_prefixes =
    info "chtRootV2-" cht_root_type
    ∷ info "chtIndexV2-" cht_index_table_type
    ∷ info "cht-" cht_table_type
    ∷ info "bltRoot-" bloom_trie_root_type
    ∷ info "bltIndex-" bloom_trie_index_type
    ∷ info "blt-" bloom_trie_table_type
    ∷ info "secure-key-" preimage_type
    ∷ info "ethereum-config-" config_type
    ∷ info "ethereum-genesis-" genesis_state_type
    ∷ info "clique-" clique_snapshot_type
    ∷ info "iB" bloom_bits_index_type
    ∷ info "h" header_type
    ∷ info "H" header_number_type
    ∷ info "b" block_body_type
    ∷ info "r" block_receipts_type
    ∷ info "l" transaction_lookup_metadata_type
    ∷ info "B" bloom_bits_type
    ∷ info "t" header_total_difficulty_type
    ∷ info "n" header_number_hash_mapping_type
    ∷ info "a" snapshot_account_type
    ∷ info "o" snapshot_storage_type
    ∷ info "c" code_type
    ∷ info "S" skeleton_header_type
    ∷ info "A" trie_node_account_type
    ∷ info "O" trie_node_storage_type
    ∷ info "L" state_id_lookup_type
    ∷ info "v" verkle_trie_type
    ∷ info "DatabaseVersion" database_version_type
    ∷ info "LastHeader" head_header_type
    ∷ info "LastBlock" head_block_type
    ∷ info "LastFast" head_fast_block_type
    ∷ info "LastFinalized" head_finalized_block_type
    ∷ info "LastStateID" persistent_state_id_type
    ∷ info "LastPivot" last_pivot_type
    ∷ info "TrieSync" fast_trie_progress_type
    ∷ info "SnapshotDisabled" snapshot_disabled_type
    ∷ info "SnapshotRoot" snapshot_root_type
    ∷ info "SnapshotJournal" snapshot_journal_type
    ∷ info "SnapshotGenerator" snapshot_generator_type
    ∷ info "SnapshotRecovery" snapshot_recovery_type
    ∷ info "SnapshotSyncStatus" snapshot_sync_status_type
    ∷ info "SkeletonSyncStatus" skeleton_sync_status_type
    ∷ info "TrieJournal" trie_journal_type
    ∷ info "TransactionIndexTail" transaction_index_tail_type
    ∷ info "FastTransactionLookupLimit" fast_transaction_lookup_limit_type
    ∷ info "InvalidBlock" bad_block_type
    ∷ info "unclean-shutdown" unclean_shutdown_type
    ∷ info "eth2-transition" transition_status_type
    ∷ info "SnapSyncStatus" snap_sync_status_flag_type
    ∷ info "update-" light_client_update_type
    ∷ info "fixedRoot-" fixed_committee_root_type
    ∷ info "committee-" sync_committee_type
    ∷ []
