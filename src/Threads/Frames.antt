-- ===== src/Threads/Frames.antt =====
-- The stack of a process that `add_process` of src/sched.c makes, as `iretq` finds it.
use bayos_kernel.Threads.{stack_words}
use bayos_kernel.Paging.{set_word}
use bayos_kernel.Common.{ℕ, ◌+◌, ◌-◌, ◌*◌, ◌≤◌, ◌<◌, ◌≡◌, ◌⊎◌, arith}

-- The context of a process in memory: fifteen registers that are 0, and the words that `iretq` takes.
pub record IsContext (context : ℕ) (rip cs flags rsp ss : ℕ) (words : ℕ → ℕ) : Type 0 where
  pub registers : (i : ℕ) → i < 15 → words (context + 8 * i) ≡ 0
  pub rip_word : words (context + 120) ≡ rip
  pub cs_word : words (context + 128) ≡ cs
  pub flags_word : words (context + 136) ≡ flags
  pub rsp_word : words (context + 144) ≡ rsp
  pub ss_word : words (context + 152) ≡ ss

pub stack_words-IsContext :
    (stack func : ℕ) (words : ℕ → ℕ)
    → IsContext
        (stack + 0x2000 - 160)
        func
        0x8
        0x202
        (stack + 0x1ff0)
        0x10
        (stack_words stack func words)
unfolding stack_words set_word
stack_words-IsContext stack func words = record {
  registers = λ i h. ground (arith, h);
  rip_word = ground arith;
  cs_word = ground arith;
  flags_word = ground arith;
  rsp_word = ground arith;
  ss_word = ground arith;
}

-- Only the block of the stack is written.
pub stack_words-outside :
    (stack func : ℕ) (words : ℕ → ℕ) (a : ℕ)
    → (a < stack) ⊎ (stack + 0x2000 ≤ a)
    → stack_words stack func words a ≡ words a
unfolding stack_words set_word
stack_words-outside stack func words a out = ground (arith, out)
