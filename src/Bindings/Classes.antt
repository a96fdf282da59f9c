-- ===== src/Bindings/Classes.antt =====
-- What an `except` clause of Python catches of the exceptions of bindings/python/module.cpp.
use plcsim_connector.Common.{◌≡◌, ◌↔◌, refl, sym, ◌∙◌, true, some, arith}
use plcsim_connector.Error.{Error, ErrorKind, is_retryable, retryable}
use plcsim_connector.Bindings.{ExceptionType, parent, for_kind, is_below_retryable, raise_as_python}

-- `issubclass`: the reflexive and transitive closure of `parent`.
pub data IsSubclass : ExceptionType → ExceptionType → Type 0 where
  itself : {c : ExceptionType} → IsSubclass c c
  above : {b c d : ExceptionType} → parent b ≡ some c → IsSubclass c d → IsSubclass b d

below-parent :
    (b c : ExceptionType)
    → parent b ≡ some c
    → is_below_retryable c ≡ true
    → is_below_retryable b ≡ true
unfolding parent is_below_retryable
below-parent b c e h = ground arith

below :
    {b d : ExceptionType}
    → IsSubclass b d
    → is_below_retryable d ≡ true
    → is_below_retryable b ≡ true
below itself h = h
below (above e s) h = below-parent _ _ e (below s h)

kind_below : (k : ErrorKind) → is_below_retryable (for_kind k) ≡ is_retryable k
unfolding for_kind is_retryable is_below_retryable
kind_below k = ground arith

one_above :
    (c : ExceptionType)
    → parent c ≡ some ExceptionType.retryable
    → IsSubclass c ExceptionType.retryable
one_above c e = above e itself

kind_above :
    (k : ErrorKind) → is_retryable k ≡ true → IsSubclass (for_kind k) ExceptionType.retryable
unfolding for_kind is_retryable parent
kind_above ErrorKind.runtime_manager_unavailable h = one_above _ refl
kind_above ErrorKind.instance_not_found h = one_above _ refl
kind_above ErrorKind.connection_lost h = one_above _ refl
kind_above ErrorKind.timeout h = one_above _ refl
kind_above ErrorKind.instance_not_running h = one_above _ refl
kind_above ErrorKind.invalid_address h = absurd (ground arith)
kind_above ErrorKind.index_out_of_range h = absurd (ground arith)
kind_above ErrorKind.wrong_argument h = absurd (ground arith)
kind_above ErrorKind.limit_reached h = absurd (ground arith)
kind_above ErrorKind.api_not_initialized h = absurd (ground arith)
kind_above ErrorKind.other h = absurd (ground arith)

-- `except RetryableError` catches the exception that an error is translated into if and only if the
-- error is retryable.
pub except_retryable :
    (e : Error) → IsSubclass (raise_as_python e).type ExceptionType.retryable ↔ (retryable e ≡ true)
unfolding raise_as_python retryable is_below_retryable
except_retryable e = (λ s. sym (kind_below e.kind) ∙ below s refl, kind_above e.kind)
