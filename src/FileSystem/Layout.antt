-- ===== src/FileSystem/Layout.antt =====
-- What is written into a block of Assignment7/lab7/include/sfs/fs.h reads back, and nothing else
-- changes.
use cs232_operating_systems.Common.{
  ℕ, zero, suc, ◌+◌, ◌*◌, ◌^◌, ◌≤◌, ◌<◌, ◌≡◌, ◌≢◌, refl, sym, ap, ap₂, ◌∙◌, arith, List, [], ◌∷◌,
  length, ◌⊎◌, inl,
}
use cs232_operating_systems.FileSystem.Block.{
  Block, word, put_word, words_from, put_words, Inode, inode, put_inode, pointers_per_inode,
}

-- Every number of the list is a word of 32 bits.
unfoldable pub AllSmall : List ℕ → Type 0
AllSmall [] = Unit
AllSmall (v ∷ vs) = (v < 2 ^ 32) × AllSmall vs

pub record IsInode (node : Inode) : Type 0 where
  pub valid_small : node.valid < 2 ^ 32
  pub size_small : node.size < 2 ^ 32
  pub direct_length : length node.direct ≡ pointers_per_inode
  pub direct_small : AllSmall node.direct
  pub indirect_small : node.indirect < 2 ^ 32

pub word-put_word_self : (b : Block) (k v : ℕ) → v < 2 ^ 32 → word (put_word b k v) k ≡ v
unfolding word put_word
word-put_word_self b k v h = ground arith

pub word-put_word_ne : (b : Block) (k v j : ℕ) → j ≢ k → word (put_word b k v) j ≡ word b j
unfolding word put_word
word-put_word_ne b k v j h = ground arith

pub word-put_words_out :
    (b : Block) (k : ℕ) (vs : List ℕ) (j : ℕ)
    → (j < k) ⊎ (k + length vs ≤ j)
    → word (put_words b k vs) j ≡ word b j
unfolding put_words
word-put_words_out b k [] j out = refl
word-put_words_out b k (v ∷ vs) j out =
    word-put_words_out (put_word b k v) (suc k) vs j (omega arith)
    ∙ word-put_word_ne b k v j (omega arith)

pub words_from_cong :
    (b c : Block) (k n : ℕ)
    → ((j : ℕ) → k ≤ j → j < k + n → word b j ≡ word c j)
    → words_from b k n ≡ words_from c k n
unfolding words_from
words_from_cong b c k zero same = refl
words_from_cong b c k (suc n) same =
    ap₂ ◌∷◌ (same k (omega arith) (omega arith))
      (words_from_cong b c (suc k) n (λ j lo hi. same j (omega arith) (omega arith)))

pub length-words_from : (b : Block) (k n : ℕ) → length (words_from b k n) ≡ n
unfolding words_from
length-words_from b k zero = refl
length-words_from b k (suc n) = ap suc (length-words_from b (suc k) n)

pub words_from-put_words :
    (b : Block) (k : ℕ) (vs : List ℕ)
    → AllSmall vs
    → words_from (put_words b k vs) k (length vs) ≡ vs
unfolding words_from put_words AllSmall
words_from-put_words b k [] small = refl
words_from-put_words b k (v ∷ vs) small =
    ap₂ ◌∷◌
      (word-put_words_out (put_word b k v) (suc k) vs k (omega arith)
        ∙ word-put_word_self b k v (small.0))
      (words_from-put_words (put_word b k v) (suc k) vs (small.1))

pub length-direct : (b : Block) (i : ℕ) → length (inode b i).direct ≡ pointers_per_inode
unfolding inode
length-direct b i = length-words_from b (8 * i + 2) pointers_per_inode

pub inode_cong :
    {v v' s s' i i' : ℕ} {d d' : List ℕ}
    → v ≡ v'
    → s ≡ s'
    → d ≡ d'
    → i ≡ i'
    → ◌≡◌ {A = Inode}
        (record { valid = v; size = s; direct = d; indirect = i })
        (record { valid = v'; size = s'; direct = d'; indirect = i' })
inode_cong e f g h = cc

-- A block after an inode is put in it: the words of the inode, and the others as they were.
word-put_inode_out :
    (b : Block) (i : ℕ) (node : Inode) (j : ℕ)
    → length node.direct ≡ pointers_per_inode
    → (j < 8 * i) ⊎ (8 * i + 8 ≤ j)
    → word (put_inode b i node) j ≡ word b j
unfolding put_inode
word-put_inode_out b i node j len out =
    let sized = put_word (put_word b (8 * i) node.valid) (8 * i + 1) node.size in
    word-put_word_ne (put_words sized (8 * i + 2) node.direct) (8 * i + 7) node.indirect j
      (omega arith)
    ∙ word-put_words_out sized (8 * i + 2) node.direct j (omega arith)
    ∙ word-put_word_ne (put_word b (8 * i) node.valid) (8 * i + 1) node.size j (omega arith)
    ∙ word-put_word_ne b (8 * i) node.valid j (omega arith)

pub inode-put_inode_ne :
    (b : Block) (i : ℕ) (node : Inode) (j : ℕ)
    → length node.direct ≡ pointers_per_inode
    → j ≢ i
    → inode (put_inode b i node) j ≡ inode b j
unfolding inode
inode-put_inode_ne b i node j len ne =
    let same : (k : ℕ) → 8 * j ≤ k → k < 8 * j + 8 → word (put_inode b i node) k ≡ word b k =
      λ k lo hi. word-put_inode_out b i node k len (omega arith) in
    let first = same (8 * j) (omega arith) (omega arith) in
    let second = same (8 * j + 1) (omega arith) (omega arith) in
    let last = same (8 * j + 7) (omega arith) (omega arith) in
    let middle =
      words_from_cong (put_inode b i node) b (8 * j + 2) pointers_per_inode
        (λ k lo hi. same k (omega arith) (omega arith)) in
    inode_cong first second middle last

pub inode-put_inode_self :
    (b : Block) (i : ℕ) (node : Inode) → IsInode node → inode (put_inode b i node) i ≡ node
unfolding inode put_inode
inode-put_inode_self b i node is =
    let one = put_word b (8 * i) node.valid in
    let two = put_word one (8 * i + 1) node.size in
    let three = put_words two (8 * i + 2) node.direct in
    let four = put_word three (8 * i + 7) node.indirect in
    let len = is.direct_length in
    let above : (k : ℕ) → k < 8 * i + 2 → word four k ≡ word two k = λ k lo.
      word-put_word_ne three (8 * i + 7) node.indirect k (omega arith)
      ∙ word-put_words_out two (8 * i + 2) node.direct k (inl lo) in
    let first =
      above (8 * i) (omega arith)
      ∙ word-put_word_ne one (8 * i + 1) node.size (8 * i) (omega arith)
      ∙ word-put_word_self b (8 * i) node.valid is.valid_small in
    let second =
      above (8 * i + 1) (omega arith)
      ∙ word-put_word_self one (8 * i + 1) node.size is.size_small in
    let middle =
      words_from_cong four three (8 * i + 2) pointers_per_inode
        (λ k lo hi. word-put_word_ne three (8 * i + 7) node.indirect k (omega arith))
      ∙ ap (words_from three (8 * i + 2)) (sym len)
      ∙ words_from-put_words two (8 * i + 2) node.direct is.direct_small in
    inode_cong first second middle
      (word-put_word_self three (8 * i + 7) node.indirect is.indirect_small)
